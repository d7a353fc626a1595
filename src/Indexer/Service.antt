-- ===== src/Indexer/Service.antt =====
-- backend/src/indexer/indexer.service.ts, and the calls of it in backend/src/admin/admin.service.ts.
-- The events come decoded from the node; `undecodable` is one whose decoding throws. Amounts on the
-- chain are whole tonnes.
use carbonledger.Base.{
  ℕ, ◌+◌, String, Bool, true, false, Option, none, some, List, [], ◌∷◌, ltb, ◌==◌, if◌then◌else◌,
}
use carbonledger.Base.Digits.{text_leb}
use carbonledger.Prisma.{Prisma}
use carbonledger.Schema.{CreditBatch, BatchStatus, active, partially_retired, fully_retired, Db}
use carbonledger.Action.{Action, ok, err, ◌>>=◌, ◌>>◌, pure, throw, gets, service_unavailable}
use carbonledger.Tables.{batches, retirements, find_unique, update, upsert}
use carbonledger.Credits.Service.{with_batch_status}
use carbonledger.Indexer.Rows.{
  Minted, Retired, Event, update_minted, create_minted, update_retired, create_retired,
  create_synced, is_of_batch, amount_of, minted, retired, transfer, unknown, undecodable,
}

-- `$transaction`: an error takes back what the callback has written.
abbrev pub transaction : {S A : Type 0} → Action S A → Action S A
transaction m s = let (r, s') = m s in elim r [ ok a ↦ (ok a, s') | err e ↦ (err e, s) ]

-- `decimal_text` is the text that a `Decimal` of the database client turns into when JavaScript
-- compares two of them; a sum of no rows is the number 0, which is compared as a number.
module _ (prisma : Prisma) (decimal_text : ℕ → List ℕ) where
  -- `retiredSum >= batch.amount`
  abbrev pub covers : ℕ → ℕ → Bool
  covers sum amount =
      if sum == 0 then amount == 0 else text_leb (decimal_text amount) (decimal_text sum)

  abbrev pub status_after : Option CreditBatch → ℕ → BatchStatus
  status_after none sum = if ltb 0 sum then partially_retired else active
  status_after (some batch) sum =
      if covers sum batch.amount
      then fully_retired
      else if ltb 0 sum
      then partially_retired
      else active

  unfoldable pub handle_minted_event : Minted → Action (Db prisma) (Unit {0})
  unfolding upsert
  handle_minted_event data_ =
      upsert (batches prisma) data_.batch_id (update_minted data_) (create_minted data_)

  unfoldable pub retired_sum : String → Action (Db prisma) ℕ
  retired_sum batch_id = gets (λ db. prisma.sum (is_of_batch batch_id) amount_of db.retirements)

  unfoldable pub write_retired : Retired → Option CreditBatch → Action (Db prisma) (Unit {0})
  unfolding upsert update retired_sum
  write_retired data_ batch = do
    upsert (retirements prisma) data_.retirement_id (update_retired data_)
        (create_retired data_ batch)
    sum ← retired_sum data_.batch_id
    update (batches prisma) data_.batch_id (with_batch_status (status_after batch sum))
    pure tt

  unfoldable pub handle_retired_event : Retired → Action (Db prisma) (Unit {0})
  unfolding find_unique write_retired
  handle_retired_event data_ = do
    batch ← find_unique (batches prisma) data_.batch_id
    transaction (write_retired data_ batch)

  -- `syncBatchFromChain`, which is only called without a project and a vintage year.
  unfoldable pub handle_transfer_event : String → Action (Db prisma) (Unit {0})
  unfolding upsert
  handle_transfer_event batch_id =
      upsert (batches prisma) batch_id (with_batch_status active) (create_synced batch_id)

  unfoldable pub process_event : Event → Action (Db prisma) (Unit {0})
  unfolding handle_minted_event handle_retired_event handle_transfer_event
  process_event (minted data_) db = handle_minted_event data_ db
  process_event (retired data_) db = handle_retired_event data_ db
  process_event (transfer batch_id) db = handle_transfer_event batch_id db
  process_event unknown db = (pure tt) db
  process_event undecodable db = (throw service_unavailable) db

  -- The loop of `sync`: an event that throws is logged and passed over.
  unfoldable pub process_events : List Event → Db prisma → Db prisma
  unfolding process_event
  process_events [] db = db
  process_events (event ∷ events) db =
      let (_, db') = process_event event db in process_events events db'

-- What the indexer keeps: the database, the row `singleton` of `syncMetadata` and its flag.
pub record State (prisma : Prisma) : Type 0 where
  pub db : Db prisma
  pub last_indexed_ledger : Option ℕ
  pub is_indexing : Bool

-- The node of the network: `none` is a call that throws.
pub record Node : Type 0 where
  pub get_latest_ledger : Option ℕ
  pub get_events : ℕ → Option (List Event)

-- `upsert` of the row `singleton` with `lastIndexedLedger: 0`
abbrev pub metadata_of : Option ℕ → ℕ
metadata_of none = 0
metadata_of (some ledger) = ledger

module _ (prisma : Prisma) (decimal_text : ℕ → List ℕ) (node : Node) where
  -- The part of `sync` from the node's answers on.
  unfoldable pub sync_from : ℕ → ℕ → State prisma → State prisma
  unfolding process_events
  sync_from last current s =
      if ltb current (last + 1) then s else elim (node.get_events (last + 1)) [
        | none ↦ s
        | some events ↦ record s {
          db = process_events prisma decimal_text events s.db;
          last_indexed_ledger = some current;
        }
      ]

  -- With a contract configured. Every error is logged, and the flag is put down at the end.
  unfoldable pub sync : State prisma → State prisma
  unfolding sync_from
  sync s =
      let last = metadata_of s.last_indexed_ledger in
      let found = record s { last_indexed_ledger = some last; is_indexing = true } in
      record (elim node.get_latest_ledger [
        | none ↦ found
        | some current ↦ sync_from last current found
      ]) { is_indexing = false }

  unfoldable pub handle_cron : State prisma → State prisma
  unfolding sync
  handle_cron s = if s.is_indexing then s else sync s

  -- `AdminService.triggerReindex`: an update of the row `singleton`, which must be there, and `sync`.
  unfoldable pub trigger_reindex : State prisma → Option (State prisma)
  unfolding sync
  trigger_reindex s = elim s.last_indexed_ledger [
    | none ↦ none
    | some _ ↦ some (sync (record s { last_indexed_ledger = some 0 }))
  ]
