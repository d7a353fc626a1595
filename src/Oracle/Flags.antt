-- ===== src/Oracle/Flags.antt =====
-- backend/src/oracle/oracle.service.ts: `flagProject` beside the state machine of the projects, and
-- the approvals of held prices.
use carbonledger.Base.{String, Option, some, ◌≡◌, refl, arith}
use carbonledger.Prisma.{Prisma}
use carbonledger.Schema.{Project, verified, suspended}
use carbonledger.Action.{ok}
use carbonledger.Tables.{projects}
use carbonledger.Tables.Laws.{update_found}
use carbonledger.Projects.Service.{with_status, update_status}
use carbonledger.Projects.StateMachine.{allowed_transitions}
use carbonledger.Projects.Transitions.{update_status_moves}
use carbonledger.Oracle.Queue.{Queue}
use carbonledger.Oracle.Rows.{State}
use carbonledger.Oracle.Service.{flag_project}

module _ (prisma : Prisma) (queue : Queue) (pair_key : String → String → String) where
  -- To flag a stored project suspends it whatever its status was, a final one included, with no
  -- entry in the audit log, and the status machine then lets it be verified.
  pub flag_reopens :
      (id actor : String) (reason : Option String) (row : Project) (s : State prisma queue)
      → prisma.find_unique id s.db.projects ≡ some row
      → let (result, s') = flag_project prisma queue pair_key id s in
        (result ≡ ok tt)
        × (prisma.find_unique id s'.db.projects ≡ some (with_status suspended row))
        × (s'.db.audit_log ≡ s.db.audit_log)
        × ((update_status prisma id (record { status = verified; reason = reason }) actor s'.db).0
            ≡ ok (with_status verified row))
  unfolding flag_project allowed_transitions
  flag_reopens id actor reason row s found =
      let flagged = update_found (projects prisma) id (with_status suspended) s.db found in
      let stored = prisma.find-upsert_self id (with_status suspended) row s.db.projects in
      let db' = record s.db {
        projects = prisma.upsert id (with_status suspended) row s.db.projects;
      } in
      let moves =
        update_status_moves prisma id (record { status = verified; reason = reason }) actor db'
          {row = with_status suspended row} (ground (arith, stored, found)) refl in
      (
        ground (arith, flagged),
        ground (arith, flagged, stored),
        ground (arith, flagged),
        ground (arith, flagged, moves),
      )
