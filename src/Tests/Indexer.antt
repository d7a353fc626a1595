-- ===== src/Tests/Indexer.antt =====
-- The indexer at concrete inputs.
use carbonledger.Base.{
  ℕ, ◌+◌, ◌/◌, ◌%◌, ◌==◌, ◌++◌, List, [], ◌∷◌, some, none, ◌≡◌, false, arith, if◌then◌else◌,
}
use carbonledger.Base.Digits.{digits}
use carbonledger.Prisma.Memory.{memory}
use carbonledger.Schema.{CreditBatch, fully_retired, Db}
use carbonledger.Credits.Service.{RetireCreditsDto}
use carbonledger.Indexer.Rows.{Retired, retired, transfer, tonnes}
use carbonledger.Indexer.Service.{State, Node}
use carbonledger.Indexer.Events.{after}
use carbonledger.Indexer.Replay.{Agree, process_event-Agree}
use carbonledger.Tests.Samples.{sample, batch}

-- Hundredths as a decimal text.
abbrev text : ℕ → List ℕ
text h =
    if h % 100 == 0
    then digits (h / 100)
    else digits (h / 100) ++ b'.' ∷ (b'0' + h % 100 / 10) ∷ (b'0' + h % 10) ∷ []

text_whole : (k : ℕ) → text (tonnes k) ≡ digits k
text_whole k = ground arith

-- Ten tonnes, of which nine are retired.
abbrev ten_tonnes : CreditBatch
ten_tonnes = record batch { amount = 1000 }

abbrev ledger : Db memory
ledger = record sample { batches = ("b1", ten_tonnes) ∷ [] }

abbrev nine : Retired
nine = record {
  retirement_id = "r1";
  batch_id = "b1";
  project_id = "p1";
  amount = 9;
  holder = "own";
  beneficiary = "ben";
  tx_hash = "tx";
}

process_event-Agree_example :
    Agree memory text
      (after memory text (retired nine) ledger)
      (after memory text (retired nine) (after memory text (retired nine) ledger))
      "b1"
process_event-Agree_example = process_event-Agree memory text (retired nine) ledger "b1"

abbrev retired_batch : CreditBatch
retired_batch = record batch { status = fully_retired }

abbrev closed : Db memory
closed = record sample { batches = ("b1", retired_batch) ∷ [] }

abbrev once_more : RetireCreditsDto
once_more = record {
  batch_id = "b1";
  amount = 150;
  beneficiary = "ben";
  retirement_reason = "offset";
  holder_public_key = "own";
}

abbrev start : State memory
start = record { db = sample; last_indexed_ledger = none; is_indexing = false }

abbrev stray : Retired
stray = record nine { batch_id = "b9" }

abbrev node : Node
node = record {
  get_latest_ledger = some 7;
  get_events = λ _. some (retired stray ∷ transfer "b1" ∷ []);
}
