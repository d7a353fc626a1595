-- ===== src/Verifiers/Service.antt =====
-- backend/src/verifiers/verifiers.service.ts, `addVerifier` and `removeVerifier` of
-- backend/src/admin/admin.service.ts. An application is found by the key of its user, which stands
-- for its generated identifier as well; the clock is an argument.
use carbonledger.Base.{ℕ, String, Bool, true, false, not, Option, none, some}
use carbonledger.Prisma.{Prisma}
use carbonledger.Schema.{
  VerifierApplication, ApplicationStatus, pending, approved, rejected, User, Role, verifier,
  corporation, Db,
}
use carbonledger.Action.{Action, ◌>>=◌, ◌>>◌, pure, throw_if, or_throw, not_found, bad_request}
use carbonledger.Tables.{applications, users, find_unique, update, upsert}
use carbonledger.Auth.Service.{new_user}

pub record ApplyVerifierDto : Type 0 where
  pub public_key : String
  pub organization_name : String

pub data Decision : Type 0 where
  approve reject : Decision

pub record ReviewVerifierDto : Type 0 where
  pub admin_public_key : String
  pub decision : Decision
  pub rejection_reason : Option String

abbrev pub new_application : ApplyVerifierDto → VerifierApplication
new_application dto = record {
  public_key = dto.public_key;
  organization_name = dto.organization_name;
  status = pending;
  approved_by = none;
  approved_at = none;
  rejection_reason = none;
}

abbrev pub reapply : ApplyVerifierDto → VerifierApplication → VerifierApplication
reapply dto row = record row {
  public_key = dto.public_key;
  organization_name = dto.organization_name;
  status = pending;
  rejection_reason = none;
}

abbrev pub is_pending : ApplicationStatus → Bool
is_pending pending = true
is_pending _ = false

abbrev pub status_of : Decision → ApplicationStatus
status_of approve = approved
status_of reject = rejected

abbrev pub approved_at_of : Decision → ℕ → Option ℕ
approved_at_of approve now = some now
approved_at_of reject now = none

abbrev pub reviewed : ReviewVerifierDto → ℕ → VerifierApplication → VerifierApplication
reviewed dto now row = record row {
  status = status_of dto.decision;
  approved_by = some dto.admin_public_key;
  approved_at = approved_at_of dto.decision now;
  rejection_reason = dto.rejection_reason;
}

abbrev pub with_role : Role → User → User
with_role role user = record user { role = role }

module _ (prisma : Prisma) where
  unfoldable pub apply_ : ApplyVerifierDto → Action (Db prisma) (Unit {0})
  unfolding upsert
  apply_ dto = upsert (applications prisma) dto.public_key (reapply dto) (new_application dto)

  -- The upsert of the user, on approval and in `addVerifier`.
  unfoldable pub add_verifier : String → Action (Db prisma) (Unit {0})
  unfolding upsert
  add_verifier address =
      upsert (users prisma) address (with_role verifier) (new_user address verifier)

  unfoldable pub promote : Decision → String → Action (Db prisma) (Unit {0})
  unfolding add_verifier
  promote approve public_key db = add_verifier public_key db
  promote reject public_key db = (pure tt) db

  unfoldable pub review : String → ReviewVerifierDto → ℕ → Action (Db prisma) VerifierApplication
  unfolding find_unique update promote
  review id dto now = do
    found ← find_unique (applications prisma) id
    app ← or_throw found (not_found "Application not found")
    throw_if (not (is_pending app.status)) (bad_request "Application already reviewed")
    updated ← update (applications prisma) id (reviewed dto now)
    promote dto.decision app.public_key
    pure updated

  unfoldable pub remove_verifier : String → Action (Db prisma) (Unit {0})
  unfolding update
  remove_verifier address = update (users prisma) address (with_role corporation) >> pure tt
