-- ===== src/Projects/StateMachine.antt =====
-- backend/src/projects/project-state-machine.service.ts.
use carbonledger.Base.{String, Bool, true, false, not, ◌||◌, Option, List, [], ◌∷◌, ◌++◌, str_eq}
use carbonledger.Prisma.{Prisma}
use carbonledger.Schema.{ProjectStatus, pending, verified, rejected, suspended, completed, Db}
use carbonledger.Action.{Action, ◌>>◌, throw_if, modify, unprocessable}

-- `===` on status texts.
abbrev pub same_status : ProjectStatus → ProjectStatus → Bool
same_status pending pending = true
same_status verified verified = true
same_status rejected rejected = true
same_status suspended suspended = true
same_status completed completed = true
same_status (ProjectStatus.other s) (ProjectStatus.other t) = str_eq s t
same_status _ _ = false

-- `TRANSITIONS[status] ?? []`
unfoldable pub allowed_transitions : ProjectStatus → List ProjectStatus
allowed_transitions pending = verified ∷ rejected ∷ []
allowed_transitions verified = suspended ∷ completed ∷ []
allowed_transitions suspended = verified ∷ rejected ∷ []
allowed_transitions rejected = []
allowed_transitions completed = []
allowed_transitions (ProjectStatus.other _) = []

-- `allowed.includes(next)`
abbrev pub includes : List ProjectStatus → ProjectStatus → Bool
includes [] next = false
includes (s ∷ allowed) next = same_status s next || includes allowed next

module _ {prisma : Prisma} where
  unfoldable pub transition :
      String
      → ProjectStatus
      → ProjectStatus
      → String
      → Option String
      → Action (Db prisma) (Unit {0})
  unfolding allowed_transitions
  transition project_id current next actor reason =
      throw_if (not (includes (allowed_transitions current) next))
        (unprocessable "Invalid project status transition")
      >> modify (λ db. record db {
        audit_log =
            db.audit_log
            ++ record {
              actor = actor;
              resource_id = project_id;
              before = current;
              after = next;
              reason = reason;
            }
              ∷ [];
      })
