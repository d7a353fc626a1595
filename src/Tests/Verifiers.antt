-- ===== src/Tests/Verifiers.antt =====
-- The verifiers at concrete inputs.
use carbonledger.Base.{none, some, [], ◌∷◌, arith, eq_iff}
use carbonledger.Prisma.Memory.{memory}
use carbonledger.Schema.{VerifierApplication, ApplicationStatus, approved, User, verifier, Db}
use carbonledger.Verifiers.Service.{ApplyVerifierDto, ReviewVerifierDto, approve, reject}
use carbonledger.Verifiers.Whitelist.{IsWhitelisted, decision, handle, handle-IsWhitelisted}
use carbonledger.Tests.Samples.{sample, owner}

abbrev checker : User
checker = record owner { public_key = "chk"; role = verifier }

abbrev approved_application : VerifierApplication
approved_application = record {
  public_key = "chk";
  organization_name = "Checkers";
  status = approved;
  approved_by = some "adm";
  approved_at = some 3;
  rejection_reason = none;
}

abbrev waiting : VerifierApplication
waiting = record approved_application {
  public_key = "own";
  status = ApplicationStatus.pending;
  approved_by = none;
  approved_at = none;
}

abbrev whitelist : Db memory
whitelist = record sample {
  users = ("chk", checker) ∷ ("own", owner) ∷ [];
  applications = ("chk", approved_application) ∷ ("own", waiting) ∷ [];
}

whitelist-IsWhitelisted : IsWhitelisted memory whitelist
whitelist-IsWhitelisted = record {
  keyed = λ k app e. ground (arith, eq_iff "chk" k, eq_iff "own" k);
  promoted = λ k app e a. ground (arith, eq_iff "chk" k, eq_iff "own" k);
}

abbrev approval : ReviewVerifierDto
approval = record { admin_public_key = "adm"; decision = approve; rejection_reason = none }

abbrev rejection : ReviewVerifierDto
rejection = record {
  admin_public_key = "adm";
  decision = reject;
  rejection_reason = some "expired";
}

handle-IsWhitelisted_example :
    IsWhitelisted memory (handle memory (decision "own" approval 9) whitelist)
handle-IsWhitelisted_example =
    handle-IsWhitelisted memory (decision "own" approval 9) whitelist whitelist-IsWhitelisted

abbrev again : ApplyVerifierDto
again = record { public_key = "chk"; organization_name = "Checkers" }
