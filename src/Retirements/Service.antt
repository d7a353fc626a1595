-- ===== src/Retirements/Service.antt =====
-- backend/src/retirements/retirement-indexer.service.ts, and `verifyCertificateIntegrity` of
-- backend/src/retirements/retirements.service.ts with the
-- comparison of backend/src/common/ipfs.service.ts. `enqueued` says whether the call of the job queue
-- goes through.
use carbonledger.Base.{
  ℕ, ◌+◌, leb, ◌&&◌, String, Bool, true, false, none, some, List, [], ◌∷◌, ◌++◌, if◌then◌else◌,
}
use carbonledger.Base.Digits.{value, texts_eq}
use carbonledger.Prisma.{Prisma}
use carbonledger.Schema.{Serial, RetirementRecord, Db}
use carbonledger.Action.{
  Action, ok, err, bad_request, service_unavailable, ◌>>=◌, ◌>>◌, pure, throw, or_throw, modify,
}
use carbonledger.Tables.{retirements, find_unique, create, update}
use carbonledger.Credits.Service.{get_retirement}

pub record RetirementEvent : Type 0 where
  pub retirement_id : String
  pub batch_id : String
  pub project_id : String
  pub amount : ℕ
  pub retired_by : String
  pub beneficiary : String
  pub retirement_reason : String
  pub vintage_year : ℕ
  pub serial_start : Serial
  pub serial_end : Serial
  pub tx_hash : String

abbrev pub new_record : RetirementEvent → RetirementRecord
new_record event = record {
  retirement_id = event.retirement_id;
  batch_id = event.batch_id;
  project_id = event.project_id;
  amount = event.amount;
  retired_by = event.retired_by;
  beneficiary = event.beneficiary;
  retirement_reason = event.retirement_reason;
  vintage_year = event.vintage_year;
  serial_start = event.serial_start;
  serial_end = event.serial_end;
  serial_numbers = value event.serial_start ∷ value event.serial_end ∷ [];
  tx_hash = event.tx_hash;
  certificate_cid = none;
  is_valid = true;
}

-- What the check of a certificate answers.
pub record Integrity : Type 0 where
  pub valid : Bool
  pub stored_cid : String

module _ (prisma : Prisma) where
  unfoldable pub enqueue_certificate : Bool → String → Action (Db prisma) (Unit {0})
  enqueue_certificate enqueued retirement_id db =
      if enqueued
      then (modify (λ d. record d { certificate_jobs = d.certificate_jobs ++ retirement_id ∷ [] }))
          db
      else (throw service_unavailable) db

  unfoldable pub index_new : Bool → RetirementEvent → Action (Db prisma) (Unit {0})
  unfolding enqueue_certificate create
  index_new enqueued event = do
    create (retirements prisma) event.retirement_id (new_record event)
    enqueue_certificate enqueued event.retirement_id

  unfoldable pub index_retirement : Bool → RetirementEvent → Action (Db prisma) (Unit {0})
  unfolding find_unique index_new
  index_retirement enqueued event = do
    existing ← find_unique (retirements prisma) event.retirement_id
    elim existing [ none ↦ index_new enqueued event | some _ ↦ pure tt ]

  -- `poll`: the first event that throws ends the loop, and the error is logged.
  unfoldable pub index_each : List (Bool × RetirementEvent) → Action (Db prisma) (Unit {0})
  unfolding index_retirement
  index_each [] db = (pure tt) db
  index_each ((enqueued, event) ∷ events) db =
      (index_retirement enqueued event >>= λ _. index_each events) db

  unfoldable pub poll : List (Bool × RetirementEvent) → Db prisma → Db prisma
  unfolding index_each
  poll events db = (index_each events db).1

-- `toLowerCase` on a character of ASCII.
abbrev pub lower_code : ℕ → ℕ
lower_code c = if leb b'A' c && leb c b'Z' then c + 32 else c

abbrev pub lower : List ℕ → List ℕ
lower [] = []
lower (c ∷ s) = lower_code c ∷ lower s

-- `sha256_hex` is the hash of the runtime's library, and `codes` gives the characters of a text.
module _ (prisma : Prisma) (sha256_hex : String → List ℕ) (codes : String → List ℕ) where
  -- `verifyCidMatch` of `IpfsService`
  unfoldable pub verify_cid_match : String → String → Bool
  verify_cid_match content cid = texts_eq (lower (codes cid)) (lower (sha256_hex content))

  unfoldable pub check_cid : String → String → String → Action (Db prisma) Integrity
  unfolding update verify_cid_match
  check_cid retirement_id content cid db =
      if verify_cid_match content cid
      then (update (retirements prisma) retirement_id (λ r. r)
            >> pure (record { valid = true; stored_cid = cid }))
          db
      else (update (retirements prisma) retirement_id (λ r. record r { is_valid = false })
            >> pure (record { valid = false; stored_cid = cid }))
          db

  -- Every error inside the `try` becomes one error.
  unfoldable pub rethrow : Action (Db prisma) Integrity → Action (Db prisma) Integrity
  rethrow m db =
      let (r, db') = m db in
      (
        elim r [ ok a ↦ ok a | err e ↦ err (bad_request "Failed to verify certificate integrity") ],
        db',
      )

  unfoldable pub verify_certificate_integrity : String → String → Action (Db prisma) Integrity
  unfolding check_cid rethrow get_retirement
  verify_certificate_integrity retirement_id content = do
    retirement ← get_retirement prisma retirement_id
    cid ← or_throw retirement.certificate_cid (bad_request "no CID stored")
    rethrow (check_cid retirement_id content cid)
