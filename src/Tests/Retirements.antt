-- ===== src/Tests/Retirements.antt =====
-- The retirements at concrete inputs.
use carbonledger.Base.{String, some, [], ◌∷◌, ℕ, List, replicate}
use carbonledger.Prisma.Memory.{memory}
use carbonledger.Schema.{RetirementRecord, Db}
use carbonledger.Retirements.Service.{RetirementEvent, new_record}
use carbonledger.Tests.Samples.{sample}

abbrev event : RetirementEvent
event = record {
  retirement_id = "r5";
  batch_id = "b1";
  project_id = "p1";
  amount = 20;
  retired_by = "own";
  beneficiary = "ben";
  retirement_reason = "offset";
  vintage_year = 2023;
  serial_start = b'1' ∷ b'0' ∷ [];
  serial_end = b'2' ∷ b'9' ∷ [];
  tx_hash = "tx";
}

abbrev certified : RetirementRecord
certified = record (new_record event) { certificate_cid = some "cid5" }

abbrev ledger : Db memory
ledger = record sample { retirements = ("r5", certified) ∷ [] }

abbrev hash : String → List ℕ
hash content = replicate 64 b'a'

abbrev pinned : String → List ℕ
pinned cid = replicate 46 b'Q'
