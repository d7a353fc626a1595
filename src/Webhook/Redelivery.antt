-- ===== src/Webhook/Redelivery.antt =====
-- backend/src/webhook/webhook.processor.ts: a job that runs twice, and a job that passes by the
-- state machine of the projects.
use carbonledger.Base.{
  ◌*◌, String, false, ◌||◌, Option, none, some, [], ◌∷◌, ◌≡◌, refl, inl, inr, str_eq, eq_iff, arith,
  Option-cases,
}
use carbonledger.Prisma.{Prisma, upserted}
use carbonledger.Schema.{Project, CreditBatch, active, Db}
use carbonledger.Tables.{projects, update_many}
use carbonledger.Tables.Laws.{find-upsert, update_many_found, update_many_missing}
use carbonledger.Credits.Service.{with_batch_status}
use carbonledger.Webhook.Listener.{credit_minted, project_verified}
use carbonledger.Webhook.Processor.{
  HorizonEvent, or_else, is_falsy, to_text, minted_batch, add_issued, set_verified,
  handle_credit_minted, handle_project_verified, process_type, process, process_jobs,
}
use carbonledger.Webhook.Totals.{
  issued_by, is_orphan, with_minted, upsert_batch-owned, sum_by, HasGrown, process_jobs-HasGrown,
}

module _ (prisma : Prisma) where
  update_many-batches :
      (k : String) (f : Project → Project) (db : Db prisma)
      → (update_many (projects prisma) k f db).1.batches ≡ db.batches
  update_many-batches k f db = elim (Option-cases (prisma.find_unique k db.projects)) [
    | inl missing ↦ ground (arith, update_many_missing (projects prisma) k f db missing)
    | inr (row, found) ↦ ground (arith, update_many_found (projects prisma) k f db found)
  ]

  reactivated :
      (batch : CreditBatch) (o : Option CreditBatch)
      → batch.status ≡ active
      → with_batch_status active (upserted o (with_batch_status active) batch)
        ≡ upserted o (with_batch_status active) batch
  reactivated batch none e = ground arith
  reactivated batch (some row) e = refl

  -- The batches after a mint event.
  minted-batches :
      (event : HorizonEvent) (db : Db prisma)
      → event.type_ ≡ credit_minted
      → (is_falsy event.payload.batch_id || is_falsy event.payload.project_id) ≡ false
      → is_orphan prisma event.payload db ≡ false
      → (process prisma event db).1.batches
        ≡ prisma.upsert
            (to_text event.payload.batch_id)
            (with_batch_status active)
            (minted_batch event.payload)
            db.batches
  unfolding process_type handle_credit_minted
  minted-batches event db minted named owned = ground (
    arith,
    upsert_batch-owned prisma event.payload db owned,
    update_many-batches (to_text event.payload.project_id)
        (add_issued (or_else event.payload.amount 0)) (with_minted prisma event.payload db),
  )

  -- A mint event with its two identifiers, for a stored project, that is delivered twice leaves the
  -- batches as one delivery does, but adds its amount to the total of the project twice.
  pub redelivery_counts_twice :
      (event : HorizonEvent) (id : String) (project : Project) (db : Db prisma)
      → event.type_ ≡ credit_minted
      → event.payload.project_id ≡ some id
      → (is_falsy event.payload.batch_id || is_falsy event.payload.project_id) ≡ false
      → prisma.find_unique id db.projects ≡ some project
      → ((k : String)
          → prisma.find_unique k (process_jobs prisma (event ∷ event ∷ []) db).batches
            ≡ prisma.find_unique k (process_jobs prisma (event ∷ []) db).batches)
        × HasGrown prisma id
            (2 * or_else event.payload.amount 0)
            project
            (process_jobs prisma (event ∷ event ∷ []) db)
  unfolding process_jobs sum_by issued_by
  redelivery_counts_twice event id project db minted own named found =
      let key = to_text event.payload.batch_id in
      let row = minted_batch event.payload in
      let once = minted-batches event db minted named (ground (arith, own, found)) in
      let after = process_jobs-HasGrown prisma id (event ∷ []) project db found in
      let twice =
        minted-batches event (process prisma event db).1 minted named
          (ground (arith, own, after.stored)) in
      let g = process_jobs-HasGrown prisma id (event ∷ event ∷ []) project db found in
      (
        (λ k. ground (
          arith,
          once,
          twice,
          eq_iff key k,
          reactivated row (prisma.find_unique key db.batches) refl,
          find-upsert prisma k key (with_batch_status active) row db.batches,
          prisma.find-upsert_self key (with_batch_status active) row db.batches,
          find-upsert prisma k key (with_batch_status active) row
              (process prisma event db).1.batches,
        )),
        record {
          row = g.row;
          stored = g.stored;
          issues = ground (arith, g.issues, eq_iff id id);
          retires = ground (arith, g.retires);
        },
      )

  -- A verification event sets a stored project to verified, whatever its status was, with no entry
  -- in the audit log.
  pub verified_event_bypasses :
      (event : HorizonEvent) (id : String) (project : Project) (db : Db prisma)
      → event.type_ ≡ project_verified
      → event.payload.project_id ≡ some id
      → str_eq id "" ≡ false
      → prisma.find_unique id db.projects ≡ some project
      → (prisma.find_unique id (process prisma event db).1.projects ≡ some (set_verified project))
        × ((process prisma event db).1.audit_log ≡ db.audit_log)
  unfolding process_type handle_project_verified
  verified_event_bypasses event id project db verifies own named found =
      let written = update_many_found (projects prisma) id set_verified db found in
      (
        ground (arith, written, prisma.find-upsert_self id set_verified project db.projects),
        ground (arith, written),
      )
