-- ===== src/Tests/Credits.antt =====
-- The credits service at concrete inputs.
use carbonledger.Base.{◌≤◌, refl, [], ◌∷◌, arith, String, ◌≢◌, eq_iff}
use carbonledger.Prisma.Memory.{memory}
use carbonledger.Schema.{verified, CreditBatch, Db}
use carbonledger.Credits.Service.{MintCreditsDto, RetireCreditsDto, mint_credits}
use carbonledger.Credits.Minting.{IsMintable, IsDisjoint, mint_credits-IsDisjoint}
use carbonledger.Credits.Retiring.{IsRetirable}
use carbonledger.Base.Digits.{value, text_leb, value_from}
use carbonledger.Tests.Samples.{sample, batch, project}

-- Serials 50 to 60 lie inside the range of the stored batch.
abbrev inside : MintCreditsDto
inside = record {
  batch_id = "b2";
  project_id = "p1";
  vintage_year = 2024;
  amount = 11;
  serial_start = b'5' ∷ b'0' ∷ [];
  serial_end = b'6' ∷ b'0' ∷ [];
  metadata_cid = "cid";
}

-- Serials 999 to 9999, beyond the stored batch in either order.
abbrev beyond : MintCreditsDto
beyond = record inside {
  serial_start = b'9' ∷ b'9' ∷ b'9' ∷ [];
  serial_end = b'9' ∷ b'9' ∷ b'9' ∷ b'9' ∷ [];
}

sample-IsDisjoint : IsDisjoint memory 2 sample
sample-IsDisjoint = record {
  wide = λ k b e. ground arith;
  apart = λ j k a b ne ja kb. absurd (ne (ground (arith, eq_iff "b1" j, eq_iff "b1" k)));
}

beyond-IsMintable : IsMintable memory beyond sample
unfolding text_leb value_from
beyond-IsMintable = record { free = refl; digits = refl; range = refl; no_overlap = refl }

mint_credits-IsDisjoint_example : IsDisjoint memory 2 (mint_credits memory inside sample).1
mint_credits-IsDisjoint_example =
    mint_credits-IsDisjoint memory 2 inside sample (refl, refl) (refl, refl) sample-IsDisjoint

abbrev pub half_tonne : RetireCreditsDto
half_tonne = record {
  batch_id = "b1";
  amount = 50;
  beneficiary = "ACME";
  retirement_reason = "2024";
  holder_public_key = "own";
}

pub half_tonne-IsRetirable :
    IsRetirable memory half_tonne "1000" batch (project "p1" verified) sample
half_tonne-IsRetirable = record {
  stored = refl;
  live = refl;
  covered = omega arith;
  fresh = refl;
  owned = refl;
}

abbrev too_much : RetireCreditsDto
too_much = record half_tonne { amount = 151 }

different_ids : ◌≢◌ {A = String} "ret-b1-1000" "ret-b1-2000"
different_ids = ground (arith, eq_iff "ret-b1-1000" "ret-b1-2000")

-- Serials 5 to 50 are stored; 10 to 20 lie inside, and are minted, since the text "20" is below "5".
abbrev wide_batch : CreditBatch
wide_batch = record batch { serial_start = b'5' ∷ []; serial_end = b'5' ∷ b'0' ∷ [] }

abbrev wide_sample : Db memory
wide_sample = record sample { batches = ("b1", wide_batch) ∷ [] }

abbrev hidden : MintCreditsDto
hidden = record inside { serial_start = b'1' ∷ b'0' ∷ []; serial_end = b'2' ∷ b'0' ∷ [] }

hidden-IsMintable : IsMintable memory hidden wide_sample
unfolding text_leb value_from
hidden-IsMintable = record { free = refl; digits = refl; range = refl; no_overlap = refl }

in_range :
    (value wide_batch.serial_start ≤ value hidden.serial_start)
    × (value hidden.serial_start ≤ value wide_batch.serial_end)
unfolding value_from
in_range = (omega arith, omega arith)
