-- ===== src/Monitoring/Alerts.antt =====
-- backend/src/logger: which alerts a look at the dashboard raises.
use carbonledger.Base.{
  ℕ, ◌+◌, ◌*◌, ◌≤◌, ltb, leb, ◌&&◌, ◌≡◌, refl, Bool, true, false, Option, none, some, List, [], ◌∷◌,
  ◌++◌, length, if◌then◌else◌, arith,
}
use mathlib.Core.List.{append_assoc, append-nil}
use carbonledger.Monitoring.Service.{
  Alert, stale_oracle, failure_rate, Webhook, send_alert, check_oracle_data_staleness,
  check_soroban_failure_rate, OracleStatus, SorobanMetrics, get_oracle_status, Submission, failures,
  get_soroban_metrics, Answers, get_dashboard_metrics, check_staleness?,
}

-- The alerts that two numbers of the dashboard call for.
abbrev pub stale_alerts : OracleStatus → List Alert
stale_alerts status = elim status.last_update [
  | none ↦ []
  | some t ↦
      if leb 30 status.days_since_update then stale_oracle status.days_since_update ∷ [] else []
]

abbrev pub rate_alerts : SorobanMetrics → List Alert
rate_alerts m =
    if ltb m.total_count (20 * m.failure_count)
    then failure_rate m.failure_count m.total_count ∷ []
    else []

failures-le-length : (submissions : List Submission) → failures submissions ≤ length submissions
unfolding failures
failures-le-length [] = omega arith
failures-le-length (s ∷ submissions) = ground (arith, failures-le-length submissions)

-- A failure rate is of failures that are part of the total.
pub failures_bound :
    (answer : Option (List Submission))
    → let m = get_soroban_metrics answer in m.successes + m.failure_count ≡ m.total_count
unfolding get_soroban_metrics
failures_bound none = refl
failures_bound (some submissions) = omega (arith, failures-le-length submissions)

abbrev delivers : Webhook → Bool
delivers w = w.configured && w.accepts

-- What a call appends to the alerts.
staleness_lem :
    (now : ℕ) (answer : Option (Option ℕ)) (w : Webhook)
    → delivers w ≡ true
    → let status = get_oracle_status now answer in
      check_staleness? now status.last_update w
      ≡ record w { received = w.received ++ stale_alerts status }
unfolding get_oracle_status check_oracle_data_staleness send_alert
staleness_lem now none w d = rw (append-nil w.received) refl
staleness_lem now (some none) w d = rw (append-nil w.received) refl
staleness_lem now (some (some t)) w d = ground (arith, append-nil w.received)

rate_lem :
    (answer : Option (List Submission)) (w : Webhook)
    → delivers w ≡ true
    → let m = get_soroban_metrics answer in
      (if ltb 0 m.total_count
        then check_soroban_failure_rate m.failure_count m.total_count w
        else w)
      ≡ record w { received = w.received ++ rate_alerts m }
unfolding check_soroban_failure_rate send_alert
rate_lem answer w d = ground (arith, append-nil w.received, failures_bound answer)

-- A look at the dashboard raises the alert of an oracle that is silent for 30 days or more, and the
-- one of a failure rate above a twentieth of the last hour, each where its numbers call for it and no
-- other, if the webhook is configured and takes them.
pub dashboard_alerts :
    (now : ℕ) (answers : Answers) (w : Webhook)
    → w.configured && w.accepts ≡ true
    → let (m, w') = get_dashboard_metrics now answers w in
      w'.received ≡ w.received ++ (stale_alerts m.oracle_status ++ rate_alerts m.soroban_metrics)
unfolding get_dashboard_metrics
dashboard_alerts now answers w d =
    let status = get_oracle_status now answers.latest_update in
    let m = get_soroban_metrics answers.submissions in
    let w1 = record w { received = w.received ++ stale_alerts status } in
    rw (staleness_lem now answers.latest_update w d, rate_lem answers.submissions w1 d)
      (append_assoc w.received (stale_alerts status) (rate_alerts m))

-- An oracle that is not healthy raises its alert if there is an update of it at all, and none if there
-- never was one.
pub unhealthy_oracle_alerts :
    (now : ℕ) (answer : Option (Option ℕ))
    → let status = get_oracle_status now answer in
      status.is_healthy ≡ false
      → stale_alerts status ≡ elim status.last_update [
        | none ↦ []
        | some t ↦ stale_oracle status.days_since_update ∷ []
      ]
unfolding get_oracle_status
unhealthy_oracle_alerts now none h = refl
unhealthy_oracle_alerts now (some none) h = refl
unhealthy_oracle_alerts now (some (some t)) h = ground arith
