-- ===== src/Projects/Transitions.antt =====
-- The status machine as a relation, and what one move of a project does to the database.
use carbonledger.Base.{String, ◌≡◌, refl, true, false, Option, none, some, [], ◌∷◌, ◌++◌, arith}
use carbonledger.Prisma.{Prisma}
use carbonledger.Schema.{
  ProjectStatus, pending, verified, rejected, suspended, completed, Project, Db,
}
use carbonledger.Action.{ok, err, unprocessable, not_found}
use carbonledger.Projects.StateMachine.{allowed_transitions, includes}
use carbonledger.Projects.Service.{UpdateProjectStatusDto, with_status, update_status}

-- The transitions that the service documents.
pub data CanMove : ProjectStatus → ProjectStatus → Type 0 where
  approve : CanMove pending verified
  turn_down : CanMove pending rejected
  suspend : CanMove verified suspended
  complete : CanMove verified completed
  reinstate : CanMove suspended verified
  reject_for_good : CanMove suspended rejected

pub CanMove-of_includes :
    (s t : ProjectStatus) → includes (allowed_transitions s) t ≡ true → CanMove s t
unfolding allowed_transitions
CanMove-of_includes pending verified h = approve
CanMove-of_includes pending rejected h = turn_down
CanMove-of_includes verified suspended h = suspend
CanMove-of_includes verified completed h = complete
CanMove-of_includes suspended verified h = reinstate
CanMove-of_includes suspended rejected h = reject_for_good
CanMove-of_includes _ _ h = cc

pub includes_of_CanMove :
    {s t : ProjectStatus} → CanMove s t → includes (allowed_transitions s) t ≡ true
unfolding allowed_transitions
includes_of_CanMove approve = refl
includes_of_CanMove turn_down = refl
includes_of_CanMove suspend = refl
includes_of_CanMove complete = refl
includes_of_CanMove reinstate = refl
includes_of_CanMove reject_for_good = refl

module _ (prisma : Prisma) where
  -- The database after a move of one project, with its audit entry.
  abbrev pub moved :
      String → Project → ProjectStatus → String → Option String → Db prisma → Db prisma
  moved id row next actor reason db = record db {
    projects = prisma.upsert id (with_status next) row db.projects;
    audit_log =
        db.audit_log
        ++ record {
          actor = actor;
          resource_id = id;
          before = row.status;
          after = next;
          reason = reason;
        }
          ∷ [];
  }

  module _ (id : String) (dto : UpdateProjectStatusDto) (actor : String) (db : Db prisma) where
    pub update_status_unknown :
        prisma.find_unique {V = Project} id db.projects ≡ none
        → update_status prisma id dto actor db ≡ (err (not_found "Project not found"), db)
    unfolding update_status
    update_status_unknown e = ground arith

    pub update_status_refused :
        {row : Project}
        → prisma.find_unique id db.projects ≡ some row
        → includes (allowed_transitions row.status) dto.status ≡ false
        → update_status prisma id dto actor db
          ≡ (err (unprocessable "Invalid project status transition"), db)
    unfolding update_status
    update_status_refused e h = ground arith

    pub update_status_moves :
        {row : Project}
        → prisma.find_unique id db.projects ≡ some row
        → includes (allowed_transitions row.status) dto.status ≡ true
        → update_status prisma id dto actor db
          ≡ (ok (with_status dto.status row), moved id row dto.status actor dto.reason db)
    unfolding update_status
    update_status_moves {row} e h = ground (
      arith,
      prisma.update_found id (with_status dto.status) db.projects e,
      prisma.find-upsert_self id (with_status dto.status) row db.projects,
    )
