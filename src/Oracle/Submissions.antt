-- ===== src/Oracle/Submissions.antt =====
-- backend/src/oracle/oracle.service.ts: from a submission of monitoring data to the contract, and a
-- second submission for the same period.
use carbonledger.Base.{ℕ, String, Option, none, some, ◌≡◌, inl, inr, arith, Option-cases}
use carbonledger.Prisma.{Prisma, upserted}
use carbonledger.Oracle.Queue.{OracleJob, monitoring_job, Queue}
use carbonledger.Oracle.Rows.{
  SubmitMonitoringDto, OracleUpdate, pending, submitted, State, monitoring_key, monitoring_job_id,
  new_monitoring_update, change_monitoring_update, begin_attempt, mark_submitted,
}
use carbonledger.Oracle.Service.{submit_monitoring, write_update, handle_oracle_submission}

module _ (prisma : Prisma) (queue : Queue) (pair_key : String → String → String) where
  abbrev pub submit : SubmitMonitoringDto → State prisma queue → State prisma queue
  submit = submit_monitoring prisma queue pair_key

  abbrev pub work : String → String → State prisma queue → State prisma queue
  work key tx_hash s = (handle_oracle_submission prisma queue pair_key key tx_hash s).1

  abbrev pub update_row : String → State prisma queue → Option OracleUpdate
  update_row key s = prisma.find_unique key s.updates

  -- What the worker leaves of a stored update.
  pub work-updates :
      {row : OracleUpdate} (key tx_hash : String) (s : State prisma queue)
      → update_row key s ≡ some row
      → (update_row key (work key tx_hash s) ≡ some (mark_submitted tx_hash (begin_attempt row)))
        × ((work key tx_hash s).jobs ≡ s.jobs)
  unfolding handle_oracle_submission write_update
  work-updates {row} key tx_hash s found =
      let first = prisma.update_found key begin_attempt s.updates found in
      let first_row = prisma.find-upsert_self key begin_attempt row s.updates in
      let t = prisma.upsert key begin_attempt row s.updates in
      let second =
        prisma.update_found {row = begin_attempt row} key (mark_submitted tx_hash) t
          (ground (arith, first_row, found)) in
      let second_row = prisma.find-upsert_self key (mark_submitted tx_hash) (begin_attempt row) t in
      (ground (arith, first, first_row, second, second_row), ground (arith, first, second))

  -- Data for a period that has no update and no job yet: the job carries the numbers submitted, and
  -- once the worker has run it the update is submitted with them, after one attempt.
  pub monitoring_is_submitted :
      (dto : SubmitMonitoringDto) (tx_hash : String) (s : State prisma queue)
      → update_row (monitoring_key dto) s ≡ none
      → queue.find (monitoring_job_id dto) s.jobs ≡ none
      → (queue.find (monitoring_job_id dto) (submit dto s).jobs
          ≡ some (monitoring_job (monitoring_key dto) dto.tonnes_verified dto.methodology_score))
        × (update_row (monitoring_key dto) (work (monitoring_key dto) tx_hash (submit dto s))
            ≡ some (record (new_monitoring_update dto) {
              status = submitted;
              attempts = 1;
              tx_hash = some tx_hash;
            }))
  unfolding submit_monitoring
  monitoring_is_submitted dto tx_hash s no_row no_job = (
    queue.add_new (monitoring_job_id dto)
        (monitoring_job (monitoring_key dto) dto.tonnes_verified dto.methodology_score) s.jobs
        no_job,
    ground (
      arith,
      work-updates {row = new_monitoring_update dto} (monitoring_key dto) tx_hash (submit dto s) (
          ground (
            arith,
            prisma.find-upsert_self (monitoring_key dto) (change_monitoring_update dto)
                (new_monitoring_update dto) s.updates,
          )),
    ),
  )

  -- The update and the job that a submission leaves.
  submit-updates :
      (dto : SubmitMonitoringDto) (s : State prisma queue)
      → update_row (monitoring_key dto) (submit dto s)
        ≡ some (
            upserted
              (update_row (monitoring_key dto) s)
              (change_monitoring_update dto)
              (new_monitoring_update dto))
  unfolding submit_monitoring
  submit-updates dto s =
      prisma.find-upsert_self (monitoring_key dto) (change_monitoring_update dto)
        (new_monitoring_update dto) s.updates

  submit-holds_job :
      (dto : SubmitMonitoringDto) (s : State prisma queue)
      → (held : OracleJob) × (queue.find (monitoring_job_id dto) (submit dto s).jobs ≡ some held)
  unfolding submit_monitoring
  submit-holds_job dto s =
      let job = monitoring_job (monitoring_key dto) dto.tonnes_verified dto.methodology_score in
      elim (Option-cases (queue.find (monitoring_job_id dto) s.jobs)) [
        | inl new ↦ (job, queue.add_new (monitoring_job_id dto) job s.jobs new)
        | inr (held, found) ↦
            (held, ground (arith, queue.add_held (monitoring_job_id dto) job s.jobs found))
      ]

  -- After a submission that the worker has run, a submission of other numbers for the same project
  -- and period makes the update pending with the new numbers, and adds no job to submit them.
  pub resubmission_adds_no_job :
      (dto : SubmitMonitoringDto) (tonnes score : ℕ) (tx_hash : String) (s : State prisma queue)
      → let s' = work (monitoring_key dto) tx_hash (submit dto s) in
        let again =
          submit (record dto { tonnes_verified = tonnes; methodology_score = score }) s' in
        (again.jobs ≡ s'.jobs)
        × ((row : OracleUpdate) × (update_row (monitoring_key dto) again ≡ some row)
            × (row.status ≡ pending)
            × (row.tonnes_verified ≡ tonnes)
            × (row.methodology_score ≡ score))
  unfolding submit_monitoring
  resubmission_adds_no_job dto tonnes score tx_hash s =
      let dto' = record dto { tonnes_verified = tonnes; methodology_score = score } in
      let s' = work (monitoring_key dto) tx_hash (submit dto s) in
      let first = submit-updates dto s in
      let (worked, kept) = work-updates (monitoring_key dto) tx_hash (submit dto s) first in
      let (held, found) = submit-holds_job dto s in
      let job = monitoring_job (monitoring_key dto) tonnes score in
      (
        queue.add_held {held = held} (monitoring_job_id dto) job s'.jobs
            (ground (arith, kept, found)),
        (
          upserted (update_row (monitoring_key dto) s') (change_monitoring_update dto')
              (new_monitoring_update dto'),
          submit-updates dto' s',
          ground (arith, worked),
          ground (arith, worked),
          ground (arith, worked),
        ),
      )
