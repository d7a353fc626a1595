-- ===== src/Mail/Processor.antt =====
-- backend/src/mail: mail.processor.ts, the job that a queue runs again after a throw. Rendering the
-- template and the certificate is an outcome of its own; no provider is called.
use carbonledger.Base.{
  Bool, true, false, refl, if◌then◌else◌, ℕ, String, Option, none, some, List, [], ◌∷◌, ◌≡◌, arith,
}
use carbonledger.Prisma.{Prisma}
use carbonledger.Action.{Action, Result, ok, err, Error, record_missing, ◌>>◌, throw, try_catch}

pub data MailStatus : Type 0 where
  pending sent failed : MailStatus

pub record EmailLog : Type 0 where
  pub status : MailStatus
  pub error : Option String
  pub sent_at : Option ℕ

abbrev pub with_sent : ℕ → EmailLog → EmailLog
with_sent now log = record log { status = sent; sent_at = some now }

abbrev pub with_failed : String → EmailLog → EmailLog
with_failed message log = record log { status = failed; error = some message }

module _ (prisma : Prisma) (message : Error → String) where
  unfoldable pub update_log :
      String → (EmailLog → EmailLog) → Action (prisma.Rows EmailLog) (Unit {0})
  update_log id change rows = elim (prisma.update id change rows) [
    | none ↦ (err record_missing, rows)
    | some rows' ↦ (ok tt, rows')
  ]

  abbrev pub prepare : Result (Unit {0}) → Action (prisma.Rows EmailLog) (Unit {0})
  prepare outcome rows = (outcome, rows)

  unfoldable pub process : Result (Unit {0}) → ℕ → String → Action (prisma.Rows EmailLog) (Unit {0})
  unfolding update_log
  process outcome now log_id =
      try_catch (prepare outcome >> update_log log_id (with_sent now))
        (λ e. update_log log_id (with_failed (message e)) >> throw e)

  -- The queue runs the job until it returns, or until there is no attempt left.
  unfoldable pub attempts :
      List (Result (Unit {0}) × ℕ) → String → prisma.Rows EmailLog → prisma.Rows EmailLog
  unfolding process
  attempts [] log_id rows = rows
  attempts ((outcome, now) ∷ later) log_id rows =
      let rows' = (process outcome now log_id rows).1 in
      let rest = attempts later log_id rows' in
      elim (process outcome now log_id rows).0 [ ok a ↦ rows' | err e ↦ rest ]

  -- The message of the last attempt that threw, the one that the row had if there is none.
  abbrev pub last_error : List (Result (Unit {0}) × ℕ) → Option String → Option String
  last_error [] before = before
  last_error ((ok a, now) ∷ later) before = before
  last_error ((err e, now) ∷ later) before = last_error later (some (message e))

  -- The time of the first attempt that returned.
  abbrev pub sent_when : List (Result (Unit {0}) × ℕ) → Option ℕ
  sent_when [] = none
  sent_when ((ok a, now) ∷ later) = some now
  sent_when ((err e, now) ∷ later) = sent_when later

  abbrev pub is_empty : List (Result (Unit {0}) × ℕ) → Bool
  is_empty [] = true
  is_empty (t ∷ later) = false

  -- The row of a mail after its attempts.
  abbrev pub after : List (Result (Unit {0}) × ℕ) → EmailLog → EmailLog
  after tries log = record {
    status = elim (sent_when tries) [
      | none ↦ if is_empty tries then log.status else failed
      | some now ↦ sent
    ];
    error = last_error tries log.error;
    sent_at = elim (sent_when tries) [ none ↦ log.sent_at | some now ↦ some now ];
  }

  process-ok :
      (now : ℕ) (id : String) (log : EmailLog) (rows : prisma.Rows EmailLog)
      → prisma.find_unique id rows ≡ some log
      → process (ok tt) now id rows ≡ (ok tt, prisma.upsert id (with_sent now) log rows)
  unfolding process update_log
  process-ok now id log rows e = ground (arith, prisma.update_found id (with_sent now) rows e)

  process-err :
      (x : Error) (now : ℕ) (id : String) (log : EmailLog) (rows : prisma.Rows EmailLog)
      → prisma.find_unique id rows ≡ some log
      → process (err x) now id rows ≡ (err x, prisma.upsert id (with_failed (message x)) log rows)
  unfolding process update_log
  process-err x now id log rows e =
      ground (arith, prisma.update_found id (with_failed (message x)) rows e)

  after-failed :
      (x : Error) (now : ℕ) (later : List (Result (Unit {0}) × ℕ)) (log : EmailLog)
      → after later (with_failed (message x) log) ≡ after ((err x, now) ∷ later) log
  after-failed x now [] log = refl
  after-failed x now ((ok tt, then_) ∷ later) log = refl
  after-failed x now ((err y, then_) ∷ later) log = ground arith

  -- The row of a stored mail after its attempts: `Sent` with the time of the first that returned, or
  -- `Failed` if none did; and the message of the last that threw before it, also beside `Sent`.
  pub attempts_lem :
      (tries : List (Result (Unit {0}) × ℕ)) (id : String) (log : EmailLog)
      (rows : prisma.Rows EmailLog)
      → prisma.find_unique id rows ≡ some log
      → prisma.find_unique id (attempts tries id rows) ≡ some (after tries log)
  unfolding attempts
  attempts_lem [] id log rows e = e
  attempts_lem ((ok tt, now) ∷ later) id log rows e =
      ground (
        arith,
        process-ok now id log rows e,
        e,
        prisma.find-upsert_self id (with_sent now) log rows,
      )
  attempts_lem ((err x, now) ∷ later) id log rows e =
      let change = with_failed (message x) in
      let rows' = prisma.upsert id change log rows in
      let found : prisma.find_unique id rows' ≡ some (change log) =
        ground (arith, e, prisma.find-upsert_self id change log rows) in
      ground (
        arith,
        process-err x now id log rows e,
        attempts_lem later id (change log) rows' found,
        after-failed x now later log,
      )
