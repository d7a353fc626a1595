-- ===== src/Projects/Effects.antt =====
-- What any request to the projects service can do to the projects and to the audit log.
use carbonledger.Base.{
  ◌≤◌, String, ◌≡◌, refl, ◌∙◌, Option, none, some, List, [], ◌∷◌, arith, Bool-cases, inl, inr,
  Option-cases, ltb,
}
use carbonledger.Prisma.{Prisma}
use carbonledger.Schema.{ProjectStatus, verified, rejected, Project, Db, User}
use carbonledger.Projects.StateMachine.{allowed_transitions, includes}
use carbonledger.Projects.Service.{
  RegisterProjectDto, UpdateProjectStatusDto, with_status, new_project, notify_owner,
}
use carbonledger.Projects.Service
use carbonledger.Projects.Transitions.{
  CanMove, CanMove-of_includes, update_status_unknown, update_status_refused, update_status_moves,
  moved,
}

-- The requests that change a project, as the controller passes them on.
pub data Request : Type 0 where
  register : RegisterProjectDto → Request
  update_status : String → UpdateProjectStatusDto → String → Request
  verify : String → String → Request
  reject : String → String → String → Request

module _ (prisma : Prisma) where
  -- The database after a request, whether it threw or not.
  unfoldable pub handle : Request → Db prisma → Db prisma
  handle (Request.register dto) db = (Service.register prisma dto db).1
  handle (Request.update_status id dto actor) db = (Service.update_status prisma id dto actor db).1
  handle (Request.verify id key) db = (Service.verify prisma id key db).1
  handle (Request.reject id key reason) db = (Service.reject prisma id key reason db).1

  unfoldable pub handle_all : List Request → Db prisma → Db prisma
  handle_all [] db = db
  handle_all (r ∷ rs) db = handle_all rs (handle r db)

  pub data Effect (db db' : Db prisma) : Type 0 where
    unchanged : db'.projects ≡ db.projects → db'.audit_log ≡ db.audit_log → Effect db db'
    registered :
        (dto : RegisterProjectDto)
        → prisma.find_unique dto.project_id db.projects ≡ none
        → 70 ≤ dto.methodology_score
        → db'.projects ≡ prisma.upsert dto.project_id (λ row. row) (new_project dto) db.projects
        → db'.audit_log ≡ db.audit_log
        → Effect db db'
    status_moved :
        (id : String) (row : Project) (next : ProjectStatus) (actor : String)
        (reason : Option String)
        → prisma.find_unique id db.projects ≡ some row
        → CanMove row.status next
        → db'.projects ≡ (moved prisma id row next actor reason db).projects
        → db'.audit_log ≡ (moved prisma id row next actor reason db).audit_log
        → Effect db db'

  update_status-Effect :
      (id : String) (dto : UpdateProjectStatusDto) (actor : String) (db : Db prisma)
      → Effect db (Service.update_status prisma id dto actor db).1
  update_status-Effect id dto actor db = elim (Option-cases (prisma.find_unique id db.projects)) [
    | inl none_there ↦
        rw (update_status_unknown prisma id dto actor db none_there) (unchanged refl refl)
    | inr (row, found) ↦ elim (Bool-cases (includes (allowed_transitions row.status) dto.status)) [
      | inl allowed ↦ rw (update_status_moves prisma id dto actor db found allowed) (
          status_moved id row dto.status actor dto.reason found (CanMove-of_includes _ _ allowed)
            refl refl)
      | inr refused ↦
          rw (update_status_refused prisma id dto actor db found refused) (unchanged refl refl)
    ]
  ]

  notify_owner_keeps :
      (project : Project) (owner : Option User) (db : Db prisma)
      → ((notify_owner prisma project owner db).1.projects ≡ db.projects)
        × ((notify_owner prisma project owner db).1.audit_log ≡ db.audit_log)
  unfolding notify_owner
  notify_owner_keeps project owner db = ground arith

  -- `verify` is a move to `verified`, and then the e-mail.
  verify_same_tables :
      (id key : String) (db : Db prisma)
      → let asked =
          Service.update_status prisma id (record { status = verified; reason = none }) key db in
        ((Service.verify prisma id key db).1.projects ≡ asked.1.projects)
        × ((Service.verify prisma id key db).1.audit_log ≡ asked.1.audit_log)
  unfolding Service.verify Service.update_status
  verify_same_tables id key db = ground arith

  register-Effect :
      (dto : RegisterProjectDto) (db : Db prisma) → Effect db (Service.register prisma dto db).1
  unfolding Service.register
  register-Effect dto db = elim (Option-cases (prisma.find_unique dto.project_id db.projects)) [
    | inl free ↦ elim (Bool-cases (ltb dto.methodology_score 70)) [
      | inl low ↦ unchanged (ground arith) (ground arith)
      | inr enough ↦
          registered dto free (ground arith)
            (ground (arith, prisma.create_free dto.project_id (new_project dto) db.projects free))
            (ground (arith, prisma.create_free dto.project_id (new_project dto) db.projects free))
    ]
    | inr (row, taken) ↦ unchanged (ground arith) (ground arith)
  ]

  Effect-of_same_tables :
      {db near far : Db prisma}
      → Effect db near
      → far.projects ≡ near.projects
      → far.audit_log ≡ near.audit_log
      → Effect db far
  Effect-of_same_tables (unchanged p q) e f = unchanged (e ∙ p) (f ∙ q)
  Effect-of_same_tables (registered dto free enough p q) e f =
      registered dto free enough (e ∙ p) (f ∙ q)
  Effect-of_same_tables (status_moved id row next actor reason found can p q) e f =
      status_moved id row next actor reason found can (e ∙ p) (f ∙ q)

  reject_is_move :
      (id key reason : String) (db : Db prisma)
      → Service.reject prisma id key reason db
        ≡ Service.update_status prisma id
            (record { status = rejected; reason = some reason })
            key
            db
  unfolding Service.reject Service.update_status
  reject_is_move id key reason db = refl

  pub handle-Effect : (r : Request) (db : Db prisma) → Effect db (handle r db)
  unfolding handle
  handle-Effect (Request.register dto) db = register-Effect dto db
  handle-Effect (Request.update_status id dto actor) db = update_status-Effect id dto actor db
  handle-Effect (Request.verify id key) db =
      let (p, q) = verify_same_tables id key db in
      Effect-of_same_tables
        (update_status-Effect id (record { status = verified; reason = none }) key db) p q
  handle-Effect (Request.reject id key reason) db =
      rw (reject_is_move id key reason db, handle)
        (update_status-Effect id (record { status = rejected; reason = some reason }) key db)
