-- ===== src/Indexer/Events.antt =====
-- backend/src/indexer/indexer.service.ts: what one event does to the rows.
use carbonledger.Base.{ℕ, ◌+◌, String, Bool, Option, none, some, List, ◌≡◌, refl, ap, eq_iff, arith}
use carbonledger.Prisma.{Prisma, upserted}
use carbonledger.Schema.{CreditBatch, RetirementRecord, Db}
use carbonledger.Action.{ok, err, record_missing}
use carbonledger.Tables.{find_unique, update, upsert}
use carbonledger.Tables.Laws.{find-upsert}
use carbonledger.Credits.Service.{with_batch_status}
use carbonledger.Indexer.Rows.{
  Retired, Event, retired, tonnes, create_retired, update_retired, is_of_batch, amount_of,
}
use carbonledger.Indexer.Service.{
  status_after, retired_sum, write_retired, handle_retired_event, process_event,
}

-- Writing the same row again does not count it twice.
sum_again :
    (prisma : Prisma) {V : Type 0} (where_ : V → Bool) (column : V → ℕ) (k : String) (f : V → V)
    (v w : V) (t : prisma.Rows V)
    → f (upserted (prisma.find_unique k t) f v) ≡ upserted (prisma.find_unique k t) f v
    → prisma.sum where_ column (prisma.upsert k f w (prisma.upsert k f v t))
      ≡ prisma.sum where_ column (prisma.upsert k f v t)
sum_again prisma where_ column k f v w t same = ground (
  arith,
  prisma.sum-upsert where_ column k f w (prisma.upsert k f v t),
  prisma.find-upsert_self k f v t,
)

module _ (prisma : Prisma) (decimal_text : ℕ → List ℕ) where
  -- The retirement records after a retirement, the sum over those of its batch, and the row of the
  -- batch.
  abbrev pub records_after : Retired → Option CreditBatch → Db prisma → prisma.Rows RetirementRecord
  records_after data_ batch db =
      prisma.upsert data_.retirement_id (update_retired data_) (create_retired data_ batch)
        db.retirements

  abbrev pub sum_after : Retired → Option CreditBatch → Db prisma → ℕ
  sum_after data_ batch db =
      prisma.sum (is_of_batch data_.batch_id) amount_of (records_after data_ batch db)

  abbrev pub settle : Retired → Option CreditBatch → Db prisma → CreditBatch → CreditBatch
  settle data_ batch db =
      with_batch_status (status_after prisma decimal_text batch (sum_after data_ batch db))

  abbrev pub after_retired : Retired → CreditBatch → Db prisma → Db prisma
  after_retired data_ batch db = record db {
    retirements = records_after data_ (some batch) db;
    batches = prisma.upsert data_.batch_id (settle data_ (some batch) db) batch db.batches;
  }

  pub retired_found :
      {batch : CreditBatch} (data_ : Retired) (db : Db prisma)
      → prisma.find_unique data_.batch_id db.batches ≡ some batch
      → handle_retired_event prisma decimal_text data_ db ≡ (ok tt, after_retired data_ batch db)
  unfolding handle_retired_event write_retired find_unique upsert update retired_sum
  retired_found {batch} data_ db found = ground (
    arith,
    prisma.update_found data_.batch_id (settle data_ (some batch) db) db.batches found,
    prisma.find-upsert_self data_.batch_id (settle data_ (some batch) db) batch db.batches,
  )

  pub retired_missing :
      (data_ : Retired) (db : Db prisma)
      → prisma.find_unique data_.batch_id db.batches ≡ none
      → handle_retired_event prisma decimal_text data_ db ≡ (err record_missing, db)
  unfolding handle_retired_event write_retired find_unique upsert update retired_sum
  retired_missing data_ db missing =
      ground (arith, prisma.update_missing data_.batch_id (settle data_ none db) db.batches)

  -- A retirement that is new to the records adds its tonnes to the sum of its batch.
  pub sum_after-fresh :
      (batch : CreditBatch) (data_ : Retired) (db : Db prisma)
      → prisma.find_unique data_.retirement_id db.retirements ≡ none
      → sum_after data_ (some batch) db
        ≡ prisma.sum (is_of_batch data_.batch_id) amount_of db.retirements + tonnes data_.amount
  sum_after-fresh batch data_ db fresh = ground (
    arith,
    eq_iff data_.batch_id data_.batch_id,
    prisma.sum-upsert (is_of_batch data_.batch_id) amount_of data_.retirement_id
        (update_retired data_) (create_retired data_ (some batch)) db.retirements,
  )

  -- The database after an event, whether it throws or not.
  abbrev pub after : Event → Db prisma → Db prisma
  after event db = (process_event prisma decimal_text event db).1

  rewritten :
      (data_ : Retired) (batch : CreditBatch) (found : Option RetirementRecord)
      → let row = upserted found (update_retired data_) (create_retired data_ (some batch)) in
        update_retired data_ row ≡ row
  rewritten data_ batch none = refl
  rewritten data_ batch (some r) = refl

  sum_after-replay :
      (data_ : Retired) (batch row : CreditBatch) (db : Db prisma)
      → sum_after data_ (some row) (after_retired data_ batch db) ≡ sum_after data_ (some batch) db
  sum_after-replay data_ batch row db =
      sum_again prisma (is_of_batch data_.batch_id) amount_of data_.retirement_id
        (update_retired data_) (create_retired data_ (some batch)) (create_retired data_ (some row))
        db.retirements
        (rewritten data_ batch (prisma.find_unique data_.retirement_id db.retirements))

  pub after_retired-replay :
      {batch : CreditBatch} (data_ : Retired) (db : Db prisma)
      → prisma.find_unique data_.batch_id db.batches ≡ some batch
      → (j : String)
      → let once = after_retired data_ batch db in
        let row = settle data_ (some batch) db batch in
        (prisma.find_unique data_.batch_id once.batches ≡ some row)
        × (prisma.find_unique j (after_retired data_ row once).batches
            ≡ prisma.find_unique j once.batches)
        × (prisma.find_unique j (after_retired data_ row once).retirements
            ≡ prisma.find_unique j once.retirements)
  after_retired-replay {batch} data_ db found j =
      let once = after_retired data_ batch db in
      let row = settle data_ (some batch) db batch in
      (
        ground (
          arith,
          prisma.find-upsert_self data_.batch_id (settle data_ (some batch) db) batch db.batches,
        ),
        ground (
          arith,
          sum_after-replay data_ batch row db,
          find-upsert prisma j data_.batch_id (settle data_ (some batch) db) batch db.batches,
          prisma.find-upsert_self data_.batch_id (settle data_ (some batch) db) batch db.batches,
          find-upsert prisma j data_.batch_id (settle data_ (some row) once) row once.batches,
          eq_iff data_.batch_id j,
        ),
        ground (
          arith,
          rewritten data_ batch (prisma.find_unique data_.retirement_id db.retirements),
          find-upsert prisma j data_.retirement_id (update_retired data_)
              (create_retired data_ (some batch)) db.retirements,
          prisma.find-upsert_self data_.retirement_id (update_retired data_)
              (create_retired data_ (some batch)) db.retirements,
          find-upsert prisma j data_.retirement_id (update_retired data_)
              (create_retired data_ (some row)) once.retirements,
          eq_iff data_.retirement_id j,
        ),
      )

  pub after-retired_found :
      {batch : CreditBatch} (data_ : Retired) (db : Db prisma)
      → prisma.find_unique data_.batch_id db.batches ≡ some batch
      → after (retired data_) db ≡ after_retired data_ batch db
  unfolding process_event
  after-retired_found data_ db found = ap (λ p. p.1) (retired_found data_ db found)

  pub after-retired_missing :
      (data_ : Retired) (db : Db prisma)
      → prisma.find_unique data_.batch_id db.batches ≡ none
      → after (retired data_) db ≡ db
  unfolding process_event
  after-retired_missing data_ db missing = ap (λ p. p.1) (retired_missing data_ db missing)
