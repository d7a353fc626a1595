-- ===== src/Indexer/Replay.antt =====
-- backend/src/indexer/indexer.service.ts: an event that arrives twice.
use carbonledger.Base.{
  ℕ, String, Option, none, some, List, ◌≡◌, refl, inl, inr, eq_iff, arith, Option-cases,
}
use carbonledger.Prisma.{Prisma, upserted}
use carbonledger.Schema.{CreditBatch, active, Db}
use carbonledger.Tables.{upsert}
use carbonledger.Tables.Laws.{find-upsert}
use carbonledger.Credits.Service.{with_batch_status}
use carbonledger.Indexer.Rows.{
  Minted, Retired, Event, minted, retired, transfer, unknown, undecodable, create_synced,
  update_minted, create_minted,
}
use carbonledger.Indexer.Service.{handle_minted_event, handle_transfer_event, process_event}
use carbonledger.Indexer.Events.{
  after, after_retired, after-retired_found, after-retired_missing, after_retired-replay,
}

module _ (prisma : Prisma) (decimal_text : ℕ → List ℕ) where
  -- Two databases hold the same batches and the same retirement records.
  unfoldable pub Agree : Db prisma → Db prisma → String → Type 0
  Agree db db' j =
      (prisma.find_unique j db'.batches ≡ prisma.find_unique j db.batches)
      × (prisma.find_unique j db'.retirements ≡ prisma.find_unique j db.retirements)

  -- The batches after the same idempotent upsert is made again.
  upsert_again :
      (k j : String) (f : CreditBatch → CreditBatch) (v : CreditBatch) (t : prisma.Rows CreditBatch)
      → f (upserted (prisma.find_unique k t) f v) ≡ upserted (prisma.find_unique k t) f v
      → prisma.find_unique j (prisma.upsert k f v (prisma.upsert k f v t))
        ≡ prisma.find_unique j (prisma.upsert k f v t)
  upsert_again k j f v t same = ground (
    arith,
    find-upsert prisma j k f v t,
    prisma.find-upsert_self k f v t,
    find-upsert prisma j k f v (prisma.upsert k f v t),
    eq_iff k j,
  )

  minted_same :
      (d : Minted) (o : Option CreditBatch)
      → update_minted d (upserted o (update_minted d) (create_minted d))
        ≡ upserted o (update_minted d) (create_minted d)
  minted_same d none = refl
  minted_same d (some batch) = refl

  synced_same :
      (k : String) (o : Option CreditBatch)
      → with_batch_status active (upserted o (with_batch_status active) (create_synced k))
        ≡ upserted o (with_batch_status active) (create_synced k)
  synced_same k none = refl
  synced_same k (some batch) = refl

  retired-Agree :
      (d : Retired) (db : Db prisma) (j : String)
      → Agree
          (after prisma decimal_text (retired d) db)
          (after prisma decimal_text (retired d) (after prisma decimal_text (retired d) db))
          j
  unfolding process_event Agree
  retired-Agree d db j = elim (Option-cases (prisma.find_unique d.batch_id db.batches)) [
    | inl missing ↦
        let e = after-retired_missing prisma decimal_text d db missing in (rw (e, e), rw (e, e))
    | inr (batch, found) ↦
        let e = after-retired_found prisma decimal_text d db found in
        let (there, batches_agree, records_agree) =
          after_retired-replay prisma decimal_text d db found j in
        let e' =
          after-retired_found prisma decimal_text d (after_retired prisma decimal_text d batch db)
            there in
        (rw (e, e', batches_agree), rw (e, e', records_agree))
  ]

  -- Whatever the event and whether it throws or not, to process it again leaves every batch and
  -- every retirement record as processing it once has.
  pub process_event-Agree :
      (event : Event) (db : Db prisma) (j : String)
      → Agree
          (after prisma decimal_text event db)
          (after prisma decimal_text event (after prisma decimal_text event db))
          j
  unfolding process_event handle_minted_event handle_transfer_event upsert Agree
  process_event-Agree (minted d) db j = (
    upsert_again d.batch_id j (update_minted d) (create_minted d) db.batches
        (minted_same d (prisma.find_unique d.batch_id db.batches)),
    refl,
  )
  process_event-Agree (retired d) db j = retired-Agree d db j
  process_event-Agree (transfer k) db j = (
    upsert_again k j (with_batch_status active) (create_synced k) db.batches
        (synced_same k (prisma.find_unique k db.batches)),
    refl,
  )
  process_event-Agree unknown db j = (refl, refl)
  process_event-Agree undecodable db j = (refl, refl)
