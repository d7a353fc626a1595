-- ===== src/Indexer/Statuses.antt =====
-- backend/src/indexer/indexer.service.ts: the status that events leave a batch in.
use carbonledger.Base.{ℕ, ◌+◌, ◌≤◌, ◌<◌, String, true, none, some, List, ◌≡◌, refl, arith}
use carbonledger.Base.Digits.{digits, digits_from, text_leb}
use carbonledger.Prisma.{Prisma}
use carbonledger.Schema.{Project, CreditBatch, active, fully_retired, RetirementRecord, Db}
use carbonledger.Action.{ok}
use carbonledger.Tables.{upsert}
use carbonledger.Credits.Service.{
  RetireCreditsDto, with_batch_status, retire_credits, retirement_id_of,
}
use carbonledger.Credits.Retiring.{retirement, retire_stores}
use carbonledger.Indexer.Rows.{
  Retired, retired, transfer, tonnes, create_retired, update_retired, create_synced, is_of_batch,
  amount_of,
}
use carbonledger.Indexer.Service.{status_after, handle_transfer_event, process_event}
use carbonledger.Indexer.Events.{after, settle, sum_after-fresh, after-retired_found}

-- The digits of `n` below 10 do not come before those of `10 + m` for `m` below 10, unless `n` is
-- 0 or 1.
text_leb-digits : (m n : ℕ) → m < 10 → 1 < n → n < 10 → text_leb (digits (10 + m)) (digits n) ≡ true
unfolding text_leb digits_from
text_leb-digits m n hm low high = ground arith

module _ (prisma : Prisma) (decimal_text : ℕ → List ℕ) where
  -- The tonnes that the retirement records of a batch add up to.
  abbrev pub sum_of : String → Db prisma → ℕ
  sum_of batch_id db = prisma.sum (is_of_batch batch_id) amount_of db.retirements

  -- A retirement that is new, from a stored batch, is recorded with the amount of the event, and
  -- the batch gets the status for the sum of all its records, this one included.
  pub retired_event_settles :
      (data_ : Retired) (batch : CreditBatch) (db : Db prisma)
      → prisma.find_unique data_.batch_id db.batches ≡ some batch
      → prisma.find_unique data_.retirement_id db.retirements ≡ none
      → let outcome = after prisma decimal_text (retired data_) db in
        let total = sum_of data_.batch_id db + tonnes data_.amount in
        (prisma.find_unique data_.retirement_id outcome.retirements
          ≡ some (create_retired data_ (some batch)))
        × (prisma.find_unique data_.batch_id outcome.batches
            ≡ some (with_batch_status (status_after prisma decimal_text (some batch) total) batch))
        × (sum_of data_.batch_id outcome ≡ total)
  retired_event_settles data_ batch db found fresh =
      let e = after-retired_found prisma decimal_text data_ db found in
      let s = sum_after-fresh prisma decimal_text batch data_ db fresh in
      (
        ground (
          arith,
          e,
          prisma.find-upsert_self data_.retirement_id (update_retired data_)
              (create_retired data_ (some batch)) db.retirements,
        ),
        ground (
          arith,
          e,
          s,
          prisma.find-upsert_self data_.batch_id (settle prisma decimal_text data_ (some batch) db)
              batch db.batches,
        ),
        rw (e, s) refl,
      )

  -- Where the client writes a whole number of tonnes by its digits, a batch of 10 to 19 tonnes is
  -- marked as fully retired once 2 to 9 tonnes of it are: the sums are compared as texts.
  pub early_full_retirement :
      (data_ : Retired) (batch : CreditBatch) (db : Db prisma) (m n : ℕ)
      → ((k : ℕ) → decimal_text (tonnes k) ≡ digits k)
      → prisma.find_unique data_.batch_id db.batches ≡ some batch
      → prisma.find_unique data_.retirement_id db.retirements ≡ none
      → batch.amount ≡ tonnes (10 + m)
      → sum_of data_.batch_id db + tonnes data_.amount ≡ tonnes n
      → m < 10
      → 1 < n
      → n < 10
      → prisma.find_unique data_.batch_id (after prisma decimal_text (retired data_) db).batches
        ≡ some (with_batch_status fully_retired batch)
  early_full_retirement data_ batch db m n whole found fresh large small hm low high =
      let (_, row, _) = retired_event_settles data_ batch db found fresh in
      ground (arith, row, whole n, whole (10 + m), text_leb-digits m n hm low high)

  module _ (dto : RetireCreditsDto) (now tx_hash : String) (batch : CreditBatch) (project : Project)
      (db : Db prisma) where
    -- A transfer event makes a batch that is fully retired active again: a retirement of no more
    -- than its amount, under a fresh identifier and for a stored project, then goes through.
    pub transfer_reopens :
        prisma.find_unique dto.batch_id db.batches ≡ some batch
        → batch.status ≡ fully_retired
        → dto.amount ≤ batch.amount
        → prisma.find_unique {V = RetirementRecord}
            (retirement_id_of dto.batch_id now)
            db.retirements
          ≡ none
        → prisma.find_unique batch.project_id db.projects ≡ some project
        → (retire_credits prisma dto now tx_hash
            (after prisma decimal_text (transfer dto.batch_id) db)).0
          ≡ ok (retirement prisma dto now tx_hash batch project db)
    unfolding process_event handle_transfer_event upsert
    transfer_reopens found full covered fresh owned =
        let (result, _) =
          retire_stores prisma dto now tx_hash (with_batch_status active batch) project
            (after prisma decimal_text (transfer dto.batch_id) db)
            (record {
              stored = ground (
                arith,
                prisma.find-upsert_self dto.batch_id (with_batch_status active)
                    (create_synced dto.batch_id) db.batches,
              );
              live = refl;
              covered = covered;
              fresh = fresh;
              owned = owned;
            }) in
        result
