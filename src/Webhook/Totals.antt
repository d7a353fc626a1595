-- ===== src/Webhook/Totals.antt =====
-- backend/src/webhook/webhook.processor.ts: what the jobs add to the totals of a project.
use carbonledger.Base.{
  ℕ, ◌+◌, String, ◌||◌, none, some, List, [], ◌∷◌, ◌≡◌, inl, inr, str_eq, eq_iff, if◌then◌else◌,
  ◌∙◌, refl, ◌&&◌, Bool, true, false, arith, Option-cases, Bool-cases,
}
use carbonledger.Prisma.{Prisma}
use carbonledger.Schema.{Project, active, Db}
use carbonledger.Action.{ok, err, internal}
use carbonledger.Tables.{projects, upsert, update_many}
use carbonledger.Tables.Laws.{find-upsert, update_many_found, update_many_missing}
use carbonledger.Credits.Service.{with_batch_status}
use carbonledger.Webhook.Listener.{
  EventType, credit_minted, credit_retired, project_verified, unknown,
}
use carbonledger.Webhook.Processor.{
  upsert_batch, upsert_retirement, is_none, Payload, HorizonEvent, or_else, is_falsy, to_text,
  minted_batch, add_issued, set_verified, handle_credit_minted, handle_credit_retired,
  handle_project_verified, process_type, process, process_jobs,
}

-- The tonnes that a job adds to what a project has issued.
unfoldable pub issued_by : String → EventType → Payload → ℕ
issued_by id credit_minted p =
    if is_falsy p.batch_id || is_falsy p.project_id
    then 0
    else if str_eq (to_text p.project_id) id
    then or_else p.amount 0
    else 0
issued_by id _ p = 0

unfoldable pub sum_by : (EventType → Payload → ℕ) → List HorizonEvent → ℕ
sum_by count [] = 0
sum_by count (event ∷ events) = count event.type_ event.payload + sum_by count events

module _ (prisma : Prisma) where
  -- A row of `projects` that differs from an earlier one in what the jobs may change.
  pub record HasGrown (id : String) (issued : ℕ) (project : Project) (db : Db prisma) : Type 0 where
    pub row : Project
    pub stored : prisma.find_unique id db.projects ≡ some row
    pub issues : row.total_credits_issued ≡ project.total_credits_issued + issued
    pub retires : row.total_credits_retired ≡ project.total_credits_retired

  update_many-projects :
      (j k : String) (f : Project → Project) (db : Db prisma)
      → prisma.find_unique j (update_many (projects prisma) k f db).1.projects ≡ (
          if str_eq k j
          then (elim (prisma.find_unique j db.projects) [ none ↦ none | some row ↦ some (f row) ])
          else prisma.find_unique j db.projects)
  update_many-projects j k f db = elim (Option-cases (prisma.find_unique k db.projects)) [
    | inl missing ↦ ground (arith, eq_iff k j, update_many_missing (projects prisma) k f db missing)
    | inr (row, found) ↦ ground (
      arith,
      eq_iff k j,
      update_many_found (projects prisma) k f db found,
      find-upsert prisma j k f row db.projects,
    )
  ]

  -- The batch is new and its project is not stored.
  abbrev pub is_orphan : Payload → Db prisma → Bool
  is_orphan p db =
      is_none (prisma.find_unique (to_text p.batch_id) db.batches)
      && is_none (prisma.find_unique (to_text p.project_id) db.projects)

  abbrev pub with_minted : Payload → Db prisma → Db prisma
  with_minted p db = record db {
    batches =
        prisma.upsert (to_text p.batch_id) (with_batch_status active) (minted_batch p) db.batches;
  }

  pub upsert_batch-orphan :
      (p : Payload) (db : Db prisma)
      → is_orphan p db ≡ true
      → upsert_batch prisma p db ≡ (err (internal "Foreign key constraint failed"), db)
  unfolding upsert_batch
  upsert_batch-orphan p db h = ground (arith, h)

  pub upsert_batch-owned :
      (p : Payload) (db : Db prisma)
      → is_orphan p db ≡ false
      → upsert_batch prisma p db ≡ (ok tt, with_minted p db)
  unfolding upsert_batch upsert
  upsert_batch-owned p db h = ground (arith, h)

  minted-HasGrown :
      (id : String) (p : Payload) (project : Project) (db : Db prisma)
      → prisma.find_unique id db.projects ≡ some project
      → (is_falsy p.batch_id || is_falsy p.project_id) ≡ false
      → HasGrown id
          (if str_eq (to_text p.project_id) id then or_else p.amount 0 else 0)
          project
          (handle_credit_minted prisma p db).1
  unfolding handle_credit_minted
  minted-HasGrown id p project db found taken =
      let key = to_text p.project_id in
      let add = add_issued (or_else p.amount 0) in
      let written = update_many-projects id key add (with_minted p db) in
      elim (Bool-cases (is_orphan p db)) [
        | inl orphan ↦
            let same = upsert_batch-orphan p db orphan in
            record {
              row = project;
              stored = ground (arith, found, taken, same);
              issues = ground (arith, found, orphan, eq_iff key id);
              retires = refl;
            }
        | inr owned ↦
            let same = upsert_batch-owned p db owned in
            elim (Bool-cases (str_eq key id)) [
              | inl own ↦ record {
                row = add project;
                stored = ground (arith, found, taken, own, same, written, eq_iff key id);
                issues = ground (arith, own);
                retires = ground arith;
              }
              | inr not_own ↦ record {
                row = project;
                stored = ground (arith, found, taken, not_own, same, written);
                issues = ground (arith, not_own);
                retires = ground arith;
              }
            ]
      ]

  process-HasGrown :
      (id : String) (type_ : EventType) (event : HorizonEvent) (project : Project) (db : Db prisma)
      → prisma.find_unique id db.projects ≡ some project
      → HasGrown id
          (issued_by id type_ event.payload)
          project
          (process_type prisma type_ event db).1
  unfolding process_type handle_credit_minted handle_credit_retired handle_project_verified
      issued_by upsert upsert_batch upsert_retirement
  process-HasGrown id credit_minted event project db found =
      elim (Bool-cases (is_falsy event.payload.batch_id || is_falsy event.payload.project_id)) [
        | inl skipped ↦ record {
          row = project;
          stored = ground (arith, found, skipped);
          issues = ground (arith, skipped);
          retires = ground arith;
        }
        | inr taken ↦
            let g = minted-HasGrown id event.payload project db found taken in
            record {
              row = g.row;
              stored = g.stored;
              issues = ground (arith, g.issues, taken);
              retires = g.retires;
            }
      ]
  process-HasGrown id credit_retired event project db found = record {
    row = project;
    stored = ground (arith, found);
    issues = omega arith;
    retires = refl;
  }
  process-HasGrown id project_verified event project db found =
      elim (Bool-cases (is_falsy event.payload.project_id)) [
        | inl skipped ↦ record {
          row = project;
          stored = ground arith;
          issues = ground arith;
          retires = ground arith;
        }
        | inr taken ↦
            let written =
              update_many-projects id (to_text event.payload.project_id) set_verified db in
            elim (Bool-cases (str_eq (to_text event.payload.project_id) id)) [
              | inl own ↦ record {
                row = set_verified project;
                stored = ground (arith, written);
                issues = ground arith;
                retires = ground arith;
              }
              | inr not_own ↦ record {
                row = project;
                stored = ground (arith, written);
                issues = ground arith;
                retires = ground arith;
              }
            ]
      ]
  process-HasGrown id unknown event project db found = record {
    row = project;
    stored = found;
    issues = omega arith;
    retires = omega arith;
  }

  -- After any jobs a stored project has issued what it had, and the amounts of the mint events for it
  -- that name a batch, as often as they were delivered; and it has retired what it had, since the job
  -- of a retirement throws before it adds anything.
  pub process_jobs-HasGrown :
      (id : String) (events : List HorizonEvent) (project : Project) (db : Db prisma)
      → prisma.find_unique id db.projects ≡ some project
      → HasGrown id (sum_by (issued_by id) events) project (process_jobs prisma events db)
  unfolding process_jobs sum_by
  process_jobs-HasGrown id [] project db found = record {
    row = project;
    stored = found;
    issues = omega arith;
    retires = omega arith;
  }
  process_jobs-HasGrown id (event ∷ events) project db found =
      let first = process-HasGrown id event.type_ event project db found in
      let rest =
        process_jobs-HasGrown id events first.row (process prisma event db).1 first.stored in
      record {
        row = rest.row;
        stored = rest.stored;
        issues = omega (arith, first.issues, rest.issues);
        retires = rest.retires ∙ first.retires;
      }
