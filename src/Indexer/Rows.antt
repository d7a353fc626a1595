-- ===== src/Indexer/Rows.antt =====
-- backend/src/indexer/indexer.service.ts: the data of the events, and the rows that are written for
-- them. Amounts on the chain are whole tonnes.
use carbonledger.Base.{ℕ, ◌*◌, String, Bool, true, Option, none, some, [], ◌∷◌, str_eq}
use carbonledger.Base.Digits.{digits}
use carbonledger.Schema.{CreditBatch, active, RetirementRecord}

pub record Minted : Type 0 where
  pub batch_id : String
  pub project_id : String
  pub amount : ℕ
  pub vintage_year : ℕ
  pub serial_start : ℕ
  pub serial_end : ℕ

pub record Retired : Type 0 where
  pub retirement_id : String
  pub batch_id : String
  pub project_id : String
  pub amount : ℕ
  pub holder : String
  pub beneficiary : String
  pub tx_hash : String

pub data Event : Type 0 where
  minted : Minted → Event
  retired : Retired → Event
  transfer : String → Event
  unknown undecodable : Event

abbrev pub tonnes : ℕ → ℕ
tonnes n = 100 * n

abbrev pub update_minted : Minted → CreditBatch → CreditBatch
update_minted data_ batch = record batch {
  amount = tonnes data_.amount;
  vintage_year = data_.vintage_year;
  serial_start = digits data_.serial_start;
  serial_end = digits data_.serial_end;
  status = active;
}

abbrev pub create_minted : Minted → CreditBatch
create_minted data_ = record {
  batch_id = data_.batch_id;
  project_id = data_.project_id;
  vintage_year = data_.vintage_year;
  amount = tonnes data_.amount;
  serial_start = digits data_.serial_start;
  serial_end = digits data_.serial_end;
  status = active;
  metadata_cid = "";
}

abbrev pub update_retired : Retired → RetirementRecord → RetirementRecord
update_retired data_ r = record r {
  amount = tonnes data_.amount;
  retired_by = data_.holder;
  beneficiary = data_.beneficiary;
  tx_hash = data_.tx_hash;
}

-- `batch?.vintageYear || 0`
abbrev pub vintage_year_of : Option CreditBatch → ℕ
vintage_year_of none = 0
vintage_year_of (some batch) = batch.vintage_year

-- The columns that the code does not give are those that it lacks, and the defaults of the table.
abbrev pub create_retired : Retired → Option CreditBatch → RetirementRecord
create_retired data_ batch = record {
  retirement_id = data_.retirement_id;
  batch_id = data_.batch_id;
  project_id = data_.project_id;
  amount = tonnes data_.amount;
  retired_by = data_.holder;
  beneficiary = data_.beneficiary;
  retirement_reason = "On-chain retirement";
  vintage_year = vintage_year_of batch;
  serial_start = [];
  serial_end = [];
  serial_numbers = [];
  tx_hash = data_.tx_hash;
  certificate_cid = none;
  is_valid = true;
}

-- The row that a transfer of an unknown batch creates.
abbrev pub create_synced : String → CreditBatch
create_synced batch_id = record {
  batch_id = batch_id;
  project_id = "unknown";
  vintage_year = 0;
  amount = 0;
  serial_start = b'0' ∷ [];
  serial_end = b'0' ∷ [];
  status = active;
  metadata_cid = "pending";
}

-- `where: { batchId }`
abbrev pub is_of_batch : String → RetirementRecord → Bool
is_of_batch batch_id r = str_eq r.batch_id batch_id

abbrev pub amount_of : RetirementRecord → ℕ
amount_of r = r.amount
