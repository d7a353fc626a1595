-- ===== src/Oracle/Queue.antt =====
-- The job queue. BullMQ is not part of the repository, so it is a parameter: a job is added under an
-- identifier, and adding under one that the queue still holds, completed jobs included where they
-- are not removed, does nothing.
use carbonledger.Base.{ℕ, String, Option, none, some, ◌≡◌, refl}
use carbonledger.Prisma.Memory.{Entries, lookup, write, lookup-write_self}

-- The data of a job: the update it is about, with the numbers or the price that it submits.
pub data OracleJob : Type 0 where
  monitoring_job : String → ℕ → ℕ → OracleJob
  price_job : String → String → OracleJob

pub record Queue : Type 1 where
  pub Jobs : Type 0
  pub find : String → Jobs → Option OracleJob
  pub add : String → OracleJob → Jobs → Jobs
  pub add_new :
      (id : String) (job : OracleJob) (jobs : Jobs)
      → find id jobs ≡ none
      → find id (add id job jobs) ≡ some job
  pub add_held :
      {held : OracleJob} (id : String) (job : OracleJob) (jobs : Jobs)
      → find id jobs ≡ some held
      → add id job jobs ≡ jobs

-- A queue in memory.
abbrev pub add_job : String → OracleJob → Entries OracleJob → Entries OracleJob
add_job id job jobs = elim (lookup id jobs) [ none ↦ write id job jobs | some _ ↦ jobs ]

pub add_job_new :
    (id : String) (job : OracleJob) (jobs : Entries OracleJob)
    → lookup id jobs ≡ none
    → lookup id (add_job id job jobs) ≡ some job
add_job_new id job jobs e = rw (e, add_job) (lookup-write_self id job jobs)

pub add_job_held :
    {held : OracleJob} (id : String) (job : OracleJob) (jobs : Entries OracleJob)
    → lookup id jobs ≡ some held
    → add_job id job jobs ≡ jobs
add_job_held id job jobs e = rw (e, add_job) refl

abbrev pub memory_queue : Queue
memory_queue = record {
  Jobs = Entries OracleJob;
  find = lookup;
  add = add_job;
  add_new = add_job_new;
  add_held = add_job_held;
}
