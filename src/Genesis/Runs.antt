-- ===== src/Genesis/Runs.antt =====
-- backend/src/indexer.ts: a run that meets an error, and a second run.
use carbonledger.Base.{ℕ, String, none, some, List, [], ◌∷◌, ◌++◌, ◌≡◌, inl, inr, eq_iff, arith}
use carbonledger.Prisma.{Prisma}
use carbonledger.Schema.{Project, verified, CreditBatch, Db}
use carbonledger.Projects.Service.{with_status}
use carbonledger.Action.{ok, err, record_missing, Result-cases}
use carbonledger.Tables.{projects, upsert}
use carbonledger.Tables.Laws.{update_found, update_missing, find-upsert}
use carbonledger.Webhook.Processor.{add_issued}
use carbonledger.Genesis.Service.{
  minted, verified_, EventResponse, Chain, handle_minted, index_event, index_all,
}

module _ (prisma : Prisma) (chain : Chain) where
  verified_missing :
      (id : String) (db : Db prisma)
      → prisma.find_unique id db.projects ≡ none
      → index_event prisma chain (verified_ id) db ≡ (err record_missing, db)
  unfolding index_event
  verified_missing id db missing =
      ground (arith, update_missing (projects prisma) id (with_status verified) db missing)

  -- A verification of a project that is not stored ends the run where it stands: the result and
  -- the database are the same whatever events come after it.
  pub unknown_project_ends_run :
      (before after : List EventResponse) (ledger tx_index : ℕ) (id : String) (db : Db prisma)
      → (index_all prisma chain before db).0 ≡ ok tt
      → prisma.find_unique id (index_all prisma chain before db).1.projects ≡ none
      → index_all prisma chain
          (before ++ record { ledger = ledger; tx_index = tx_index; event = verified_ id } ∷ after)
          db
        ≡ (err record_missing, (index_all prisma chain before db).1)
  unfolding index_all
  unknown_project_ends_run [] after ledger tx_index id db done missing =
      ground (arith, verified_missing id db missing)
  unknown_project_ends_run (e ∷ before) after ledger tx_index id db done missing =
      let later =
        unknown_project_ends_run before after ledger tx_index id
          (index_event prisma chain e.event db).1 in
      elim (Result-cases (index_event prisma chain e.event db).0) [
        | inl (_, fine) ↦ ground (arith, later)
        | inr (_, failed) ↦ ground arith
      ]

  -- The database after a mint of a batch that the contract knows, for a stored project.
  abbrev pub after_minted : String → CreditBatch → Project → Db prisma → Db prisma
  after_minted id d project db = record db {
    batches =
        prisma.upsert id (λ _. record d { batch_id = id }) (record d { batch_id = id }) db.batches;
    projects = prisma.upsert d.project_id (add_issued d.amount) project db.projects;
  }

  pub minted_lem :
      (id : String) (d : CreditBatch) (project : Project) (db : Db prisma)
      → chain.get_credit_batch id ≡ some d
      → prisma.find_unique d.project_id db.projects ≡ some project
      → index_event prisma chain (minted id) db ≡ (ok tt, after_minted id d project db)
  unfolding index_event handle_minted upsert
  minted_lem id d project db known stored = ground (
    arith,
    update_found (projects prisma) d.project_id (add_issued d.amount)
        (record db {
          batches =
              prisma.upsert id (λ _. record d { batch_id = id }) (record d { batch_id = id })
                db.batches;
        })
        stored,
  )

  -- A mint that a second run indexes again leaves the batches as the first has, and adds the amount
  -- of the batch to the total of its project a second time.
  pub rerun_counts_twice :
      (id k : String) (d : CreditBatch) (project : Project) (db : Db prisma)
      → chain.get_credit_batch id ≡ some d
      → prisma.find_unique d.project_id db.projects ≡ some project
      → let once = (index_event prisma chain (minted id) db).1 in
        let twice = (index_event prisma chain (minted id) once).1 in
        (prisma.find_unique k twice.batches ≡ prisma.find_unique k once.batches)
        × (prisma.find_unique d.project_id twice.projects
            ≡ some (add_issued d.amount (add_issued d.amount project)))
  rerun_counts_twice id k d project db known stored =
      let row = record d { batch_id = id } in
      let once = after_minted id d project db in
      let stored' =
        prisma.find-upsert_self d.project_id (add_issued d.amount) project db.projects in
      let first = minted_lem id d project db known stored in
      let second =
        minted_lem id d (add_issued d.amount project) once known
          (ground (arith, stored', stored)) in
      (
        ground (
          arith,
          first,
          second,
          eq_iff id k,
          find-upsert prisma k id (λ _. row) row db.batches,
          prisma.find-upsert_self id (λ _. row) row db.batches,
          find-upsert prisma k id (λ _. row) row once.batches,
        ),
        ground (
          arith,
          first,
          second,
          stored',
          prisma.find-upsert_self d.project_id (add_issued d.amount) (add_issued d.amount project)
              once.projects,
        ),
      )
