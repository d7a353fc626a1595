-- ===== src/Credits/Service.antt =====
-- backend/src/credits/credits.service.ts. `amount` is in hundredths of a tonne, the serial unit. The
-- clock's text and the random hash are arguments.
use carbonledger.Base.{
  ℕ, zero, suc, ◌+◌, String, Bool, true, false, not, ◌&&◌, ◌||◌, Option, none, some, List, [], ◌∷◌,
  ltb, leb, ◌==◌, str_eq, if◌then◌else◌,
}
use carbonledger.Base.Digits.{is_number_text, value}
use Prim.Native.String
use carbonledger.Prisma.{Prisma}
use carbonledger.Schema.{
  Project, Serial, CreditBatch, BatchStatus, active, partially_retired, fully_retired,
  RetirementRecord, Db, credits_minted, retirement_confirmed,
}
use carbonledger.Action.{
  Action, ◌>>=◌, ◌>>◌, pure, throw_if, or_throw, not_found, conflict, bad_request, unprocessable,
}
use carbonledger.Tables.{projects, batches, retirements, find_unique, find_first, create, update}
use carbonledger.Mail.{send_if_enabled}

pub record MintCreditsDto : Type 0 where
  pub batch_id : String
  pub project_id : String
  pub vintage_year : ℕ
  pub amount : ℕ
  pub serial_start : Serial
  pub serial_end : Serial
  pub metadata_cid : String

pub record RetireCreditsDto : Type 0 where
  pub batch_id : String
  pub amount : ℕ
  pub beneficiary : String
  pub retirement_reason : String
  pub holder_public_key : String

abbrev pub is_some {ℓ} : {A : Type ℓ} → Option A → Bool
is_some none = false
is_some (some _) = true

abbrev pub new_batch : MintCreditsDto → CreditBatch
new_batch dto = record {
  batch_id = dto.batch_id;
  project_id = dto.project_id;
  vintage_year = dto.vintage_year;
  amount = dto.amount;
  serial_start = dto.serial_start;
  serial_end = dto.serial_end;
  status = active;
  metadata_cid = dto.metadata_cid;
}

-- `Array.from({ length: count }, (_, i) => start + i)`
unfoldable pub serials_from : ℕ → ℕ → List ℕ
serials_from start zero = []
serials_from start (suc count) = start ∷ serials_from (start + 1) count

-- `toSerialUnits`: a tonne is 100 units, so a number of hundredths is its number of units.
abbrev pub to_serial_units : ℕ → ℕ
to_serial_units hundredths = hundredths

abbrev pub is_fully_retired : BatchStatus → Bool
is_fully_retired fully_retired = true
is_fully_retired _ = false

-- The `where` of the overlap check: the serials are compared as texts, by the database.
abbrev pub overlaps : Prisma → MintCreditsDto → CreditBatch → Bool
overlaps prisma dto batch =
    prisma.text_lte batch.serial_start dto.serial_end
    && prisma.text_lte dto.serial_start batch.serial_end

-- `serialStart <= 0n || serialEnd <= 0n || serialEnd <= serialStart`
abbrev pub is_bad_range : MintCreditsDto → Bool
is_bad_range dto =
    value dto.serial_start == 0
    || value dto.serial_end == 0
    || leb (value dto.serial_end) (value dto.serial_start)

abbrev pub new_retirement : RetireCreditsDto → CreditBatch → String → String → RetirementRecord
new_retirement dto batch retirement_id tx_hash = record {
  retirement_id = retirement_id;
  batch_id = dto.batch_id;
  project_id = batch.project_id;
  amount = dto.amount;
  retired_by = dto.holder_public_key;
  beneficiary = dto.beneficiary;
  retirement_reason = dto.retirement_reason;
  vintage_year = batch.vintage_year;
  serial_start = [];
  serial_end = [];
  serial_numbers = serials_from (value batch.serial_start) (to_serial_units dto.amount);
  tx_hash = tx_hash;
  certificate_cid = none;
  is_valid = true;
}

-- `ret-${batchId}-${Date.now()}`
abbrev pub retirement_id_of : String → String → String
retirement_id_of batch_id now = String.◌++◌ "ret-" (String.◌++◌ batch_id (String.◌++◌ "-" now))

abbrev pub add_retired : ℕ → Project → Project
add_retired amount project = record project {
  total_credits_retired = project.total_credits_retired + amount;
}

abbrev pub with_batch_status : BatchStatus → CreditBatch → CreditBatch
with_batch_status status batch = record batch { status = status }

module _ (prisma : Prisma) where
  -- The mail to the owner of the project of a new batch.
  unfoldable pub notify_minted : Option Project → MintCreditsDto → Action (Db prisma) (Unit {0})
  notify_minted none dto = pure tt
  notify_minted (some project) dto =
      if str_eq project.owner_address ""
      then pure tt
      else send_if_enabled project.owner_address credits_minted dto.batch_id

  unfoldable pub mint_credits : MintCreditsDto → Action (Db prisma) CreditBatch
  unfolding find_unique find_first create
  mint_credits dto = do
    existing ← find_unique (batches prisma) dto.batch_id
    throw_if (is_some existing) (bad_request "Batch already exists")
    throw_if (not (is_number_text dto.serial_start && is_number_text dto.serial_end))
        (bad_request "serialStart and serialEnd must be positive integer strings")
    throw_if (is_bad_range dto)
        (bad_request "serialEnd must be greater than serialStart and both must be positive")
    overlap ← find_first (batches prisma) (overlaps prisma dto)
    throw_if (is_some overlap) (bad_request "Serial number range overlaps existing batch")
    create (batches prisma) dto.batch_id (new_batch dto)
    project ← find_unique (projects prisma) dto.project_id
    notify_minted project dto
    pure (new_batch dto)

  unfoldable pub get_batch : String → Action (Db prisma) CreditBatch
  unfolding find_unique
  get_batch batch_id = do
    batch ← find_unique (batches prisma) batch_id
    or_throw batch (not_found "Batch not found")

  unfoldable pub retire_credits :
      RetireCreditsDto → String → String → Action (Db prisma) RetirementRecord
  unfolding get_batch create update
  retire_credits dto now tx_hash = do
    batch ← get_batch dto.batch_id
    throw_if (is_fully_retired batch.status) (conflict "Credits are already fully retired")
    throw_if (ltb batch.amount dto.amount) (unprocessable "Cannot retire")
    let retirement_id = retirement_id_of dto.batch_id now
    let retirement = new_retirement dto batch retirement_id tx_hash
    create (retirements prisma) retirement_id retirement
    update (batches prisma) dto.batch_id (
        with_batch_status
          (if leb batch.amount dto.amount then fully_retired else partially_retired))
    update (projects prisma) batch.project_id (add_retired dto.amount)
    send_if_enabled dto.holder_public_key retirement_confirmed retirement_id
    pure retirement

  unfoldable pub get_retirement : String → Action (Db prisma) RetirementRecord
  unfolding find_unique
  get_retirement retirement_id = do
    r ← find_unique (retirements prisma) retirement_id
    or_throw r (not_found "Retirement not found")
