-- ===== src/Oracle/Service.antt =====
-- backend/src/oracle/oracle.service.ts, and `handleOracleSubmission` of
-- backend/src/queue/queue.processor.ts. The clock and the key of a pair of columns are arguments.
use carbonledger.Base.{String, Option, none, some}
use carbonledger.Prisma.{Prisma}
use carbonledger.Schema.{suspended}
use carbonledger.Action.{Action, ok, err, record_missing, unique_violation, ◌>>◌}
use carbonledger.Tables.{projects, update}
use carbonledger.Projects.Service.{with_status}
use carbonledger.Oracle.Queue.{monitoring_job, price_job, Queue}
use carbonledger.Oracle.Rows.{
  SubmitMonitoringDto, UpdatePriceDto, HoldPriceUpdateDto, OracleUpdate, PriceApproval, State,
  monitoring_key, price_key, monitoring_job_id, price_job_id, new_monitoring, change_monitoring,
  new_monitoring_update, change_monitoring_update, new_price_update, change_price_update,
  begin_attempt, mark_submitted, held_price, approved, rejected,
}

module _ (prisma : Prisma) (queue : Queue) (pair_key : String → String → String) where
  unfoldable pub submit_monitoring : SubmitMonitoringDto → State prisma queue → State prisma queue
  submit_monitoring dto s = record s {
    monitoring =
        prisma.upsert (pair_key dto.project_id dto.period) (change_monitoring dto)
          (new_monitoring dto) s.monitoring;
    updates =
        prisma.upsert (monitoring_key dto) (change_monitoring_update dto)
          (new_monitoring_update dto) s.updates;
    jobs =
        queue.add (monitoring_job_id dto)
          (monitoring_job (monitoring_key dto) dto.tonnes_verified dto.methodology_score) s.jobs;
  }

  unfoldable pub submit_price : UpdatePriceDto → State prisma queue → State prisma queue
  submit_price dto s = record s {
    updates =
        prisma.upsert (price_key dto) (change_price_update dto) (new_price_update dto) s.updates;
    jobs = queue.add (price_job_id dto) (price_job (price_key dto) dto.price_usdc) s.jobs;
  }

  unfoldable pub flag_project : String → Action (State prisma queue) (Unit {0})
  unfolding update
  flag_project project_id s =
      let (r, db) = update (projects prisma) project_id (with_status suspended) s.db in
      (elim r [ ok _ ↦ ok tt | err e ↦ err e ], record s { db = db })

  unfoldable pub hold_price_update :
      HoldPriceUpdateDto → String → Action (State prisma queue) (Unit {0})
  hold_price_update dto new_id s = elim (prisma.create new_id (held_price dto) s.approvals) [
    | none ↦ (err unique_violation, s)
    | some approvals ↦ (ok tt, record s { approvals = approvals })
  ]

  -- `approvePriceUpdate` and `rejectPriceUpdate`, by what they write.
  unfoldable pub change_approval :
      String → (PriceApproval → PriceApproval) → Action (State prisma queue) (Unit {0})
  change_approval id f s = elim (prisma.update id f s.approvals) [
    | none ↦ (err record_missing, s)
    | some approvals ↦ (ok tt, record s { approvals = approvals })
  ]

  unfoldable pub approve_price_update : String → Action (State prisma queue) (Unit {0})
  unfolding change_approval
  approve_price_update id = change_approval id (λ row. record row { status = approved })

  unfoldable pub reject_price_update :
      String → Option String → Action (State prisma queue) (Unit {0})
  unfolding change_approval
  reject_price_update id reason =
      change_approval id (λ row. record row { status = rejected; reason = reason })

  unfoldable pub write_update :
      String → (OracleUpdate → OracleUpdate) → Action (State prisma queue) (Unit {0})
  write_update key f s = elim (prisma.update key f s.updates) [
    | none ↦ (err record_missing, s)
    | some updates ↦ (ok tt, record s { updates = updates })
  ]

  -- The submission itself is a stand-in that answers a hash from the clock, and does not fail.
  unfoldable pub handle_oracle_submission : String → String → Action (State prisma queue) (Unit {0})
  unfolding write_update
  handle_oracle_submission key tx_hash =
      write_update key begin_attempt >> write_update key (mark_submitted tx_hash)
