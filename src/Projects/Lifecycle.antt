-- ===== src/Projects/Lifecycle.antt =====
-- What holds of projects over any sequence of requests: terminal statuses, the minimum score, and
-- the audit log as an account of every status.
use carbonledger.Base.{
  ◌≤◌, String, ◌≡◌, refl, ◌⊎◌, none, some, List, [], ◌∷◌, ◌++◌, arith, eq_iff, str_eq,
  if◌then◌else◌,
}
use carbonledger.Prisma.{Prisma}
use carbonledger.Schema.{ProjectStatus, pending, rejected, completed, Project, AuditEntry, Db}
use carbonledger.Tables.Laws.{find-upsert}
use carbonledger.Projects.Service.{new_project, with_status}
use carbonledger.Projects.Transitions.{
  CanMove, approve, turn_down, suspend, complete, reinstate, reject_for_good,
}
use carbonledger.Projects.Effects.{
  Request, handle, handle_all, Effect, unchanged, registered, status_moved, handle-Effect,
}

abbrev pub IsTerminal : ProjectStatus → Type 0
IsTerminal status = (status ≡ rejected) ⊎ (status ≡ completed)

not-CanMove_of_IsTerminal : {s t : ProjectStatus} → CanMove s t → ¬ IsTerminal s
not-CanMove_of_IsTerminal approve h = ground arith
not-CanMove_of_IsTerminal turn_down h = ground arith
not-CanMove_of_IsTerminal suspend h = ground arith
not-CanMove_of_IsTerminal complete h = ground arith
not-CanMove_of_IsTerminal reinstate h = ground arith
not-CanMove_of_IsTerminal reject_for_good h = ground arith

-- The status that the audit log records for a project: that of its last entry, `pending` without.
abbrev pub last_status : String → ProjectStatus → List AuditEntry → ProjectStatus
last_status id status [] = status
last_status id status (e ∷ log) =
    last_status id (if str_eq e.resource_id id then e.after else status) log

last_status-append :
    (id : String) (s : ProjectStatus) (log : List AuditEntry) (e : AuditEntry)
    → last_status id s (log ++ e ∷ [])
      ≡ (if str_eq e.resource_id id then e.after else last_status id s log)
last_status-append id s [] e = refl
last_status-append id s (x ∷ log) e =
    last_status-append id (if str_eq x.resource_id id then x.after else s) log e

module _ (prisma : Prisma) where
  module _ (k : String) {row : Project} {db db' : Db prisma} where
    -- A terminal project stays as it is.
    terminal_step :
        prisma.find_unique k db.projects ≡ some row
        → IsTerminal row.status
        → Effect prisma db db'
        → prisma.find_unique k db'.projects ≡ some row
    terminal_step found end (unchanged p q) = rw p found
    terminal_step found end (registered dto free enough p q) = rw p (
        ground (
          arith,
          find-upsert prisma k dto.project_id (λ row. row) (new_project dto) db.projects,
          eq_iff dto.project_id k,
        ))
    terminal_step found end (status_moved id old next actor reason there can p q) = rw p (
        ground (
          arith,
          find-upsert prisma k id (with_status next) old db.projects,
          eq_iff id k,
          not-CanMove_of_IsTerminal can,
        ))

  -- A project that is rejected or completed keeps its row, whatever requests follow.
  pub terminal_is_final :
      (k : String) {row : Project} (rs : List Request) (db : Db prisma)
      → prisma.find_unique k db.projects ≡ some row
      → IsTerminal row.status
      → prisma.find_unique k (handle_all prisma rs db).projects ≡ some row
  unfolding handle_all
  terminal_is_final k [] db found end = found
  terminal_is_final k (r ∷ rs) db found end =
      terminal_is_final k rs (handle prisma r db)
        (terminal_step k found end (handle-Effect prisma r db)) end

  -- The status of a project in the table; one that is not stored yet will start as `pending`.
  abbrev pub status_of : String → prisma.Rows Project → ProjectStatus
  status_of k t = elim (prisma.find_unique {V = Project} k t) [
    | none ↦ pending
    | some row ↦ row.status
  ]

  -- Each stored project reached the minimum methodology score, and the last entry of the audit log
  -- gives its status.
  pub record IsAudited (db : Db prisma) : Type 0 where
    pub scored :
        (k : String) (row : Project)
        → prisma.find_unique k db.projects ≡ some row
        → 70 ≤ row.methodology_score
    pub accounted : (k : String) → last_status k pending db.audit_log ≡ status_of k db.projects

  module _ {db db' : Db prisma} (inv : IsAudited db) (k : String) where
    scored_step :
        (row : Project)
        → Effect prisma db db'
        → prisma.find_unique k db'.projects ≡ some row
        → 70 ≤ row.methodology_score
    scored_step row (unchanged p q) e = inv.scored k row (rw p at e)
    scored_step row (registered dto free enough p q) e = ground (
      arith,
      rw p at e,
      find-upsert prisma k dto.project_id (λ row. row) (new_project dto) db.projects,
      inv.scored k row,
    )
    scored_step row (status_moved id old next actor reason there can p q) e = ground (
      arith,
      rw p at e,
      find-upsert prisma k id (with_status next) old db.projects,
      inv.scored k row,
      inv.scored id old there,
    )

    accounted_step :
        Effect prisma db db' → last_status k pending db'.audit_log ≡ status_of k db'.projects
    accounted_step (unchanged p q) = rw (q, p) (inv.accounted k)
    accounted_step (registered dto free enough p q) =
        rw (q, p)
          (ground (
            arith,
            find-upsert prisma k dto.project_id (λ row. row) (new_project dto) db.projects,
            inv.accounted k,
            eq_iff dto.project_id k,
          ))
    accounted_step (status_moved id old next actor reason there can p q) =
        rw (q, p)
          (ground (
            arith,
            find-upsert prisma k id (with_status next) old db.projects,
            last_status-append k pending db.audit_log (record {
              actor = actor;
              resource_id = id;
              before = old.status;
              after = next;
              reason = reason;
            }),
            inv.accounted k,
          ))

  -- Every request keeps the account: stored projects have the minimum score, and the log gives
  -- their status.
  pub handle-IsAudited :
      (r : Request) (db : Db prisma) → IsAudited db → IsAudited (handle prisma r db)
  handle-IsAudited r db inv = record {
    scored = λ k row. scored_step inv k row (handle-Effect prisma r db);
    accounted = λ k. accounted_step inv k (handle-Effect prisma r db);
  }
