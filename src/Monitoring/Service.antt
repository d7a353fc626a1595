-- ===== src/Monitoring/Service.antt =====
-- backend/src/logger/monitoring.service.ts and alerting.service.ts. Times are in milliseconds. A query
-- of the database is its answer, `none` where it throws; the webhook is `configured` or not, and a
-- post to it goes through or not.
use carbonledger.Base.{
  ℕ, ◌+◌, ◌-◌, ◌*◌, ◌/◌, ltb, leb, ◌==◌, ◌&&◌, Bool, false, Option, none, some, List, [], ◌∷◌, ◌++◌,
  String, str_eq, length, if◌then◌else◌,
}

pub data Severity : Type 0 where
  critical warning info : Severity

-- An alert, by what it is about.
pub data Alert : Type 0 where
  stale_oracle : ℕ → Alert
  failure_rate : ℕ → ℕ → Alert
  auth_anomaly : String → Alert

abbrev pub severity : Alert → Severity
severity (stale_oracle days) = warning
severity (failure_rate failures total) = critical
severity (auth_anomaly kind) = warning

-- The alert webhook, and the alerts that reached it.
pub record Webhook : Type 0 where
  pub configured : Bool
  pub accepts : Bool
  pub received : List Alert

-- `sendAlert` never throws.
unfoldable pub send_alert : Alert → Webhook → Webhook
send_alert alert w =
    if w.configured && w.accepts then record w { received = w.received ++ alert ∷ [] } else w

-- `Math.floor((now - t) / (1000 * 60 * 60 * 24))`; a time in the future counts as today.
abbrev pub days_since : ℕ → ℕ → ℕ
days_since now t = (now - t) / 86400000

abbrev pub staleness_days : ℕ
staleness_days = 30

unfoldable pub check_oracle_data_staleness : ℕ → ℕ → Webhook → Webhook
unfolding send_alert
check_oracle_data_staleness now last_update w =
    let days = days_since now last_update in
    if leb staleness_days days then send_alert (stale_oracle days) w else w

-- `failureCount / totalCount > 0.05`, which on counts below 2 ^ 50 is the test on whole numbers.
abbrev pub exceeds : ℕ → ℕ → Bool
exceeds failures total = ltb total (20 * failures)

unfoldable pub check_soroban_failure_rate : ℕ → ℕ → Webhook → Webhook
unfolding send_alert
check_soroban_failure_rate failures total w =
    if total == 0
    then w
    else if exceeds failures total
    then send_alert (failure_rate failures total) w
    else w

unfoldable pub check_auth_anomaly : String → Webhook → Webhook
unfolding send_alert
check_auth_anomaly kind w = send_alert (auth_anomaly kind) w

pub record OracleStatus : Type 0 where
  pub last_update : Option ℕ
  pub is_healthy : Bool
  pub days_since_update : ℕ

-- The success rate is the fraction of the two numbers that follow, and 1 where there are none.
pub record SorobanMetrics : Type 0 where
  pub successes : ℕ
  pub failure_count : ℕ
  pub total_count : ℕ

pub record DashboardMetrics : Type 0 where
  pub active_listings : ℕ
  pub daily_retirements : ℕ
  pub oracle_status : OracleStatus
  pub soroban_metrics : SorobanMetrics

abbrev pub unknown_oracle : OracleStatus
unknown_oracle = record { last_update = none; is_healthy = false; days_since_update = 999 }

-- The newest update, if the query answers and there is one.
unfoldable pub get_oracle_status : ℕ → Option (Option ℕ) → OracleStatus
get_oracle_status now none = unknown_oracle
get_oracle_status now (some none) = unknown_oracle
get_oracle_status now (some (some created_at)) = record {
  last_update = some created_at;
  is_healthy = ltb (days_since now created_at) 365;
  days_since_update = days_since now created_at;
}

pub record Submission : Type 0 where
  pub contract_id : String
  pub status : String
  pub created_at : ℕ

unfoldable pub failures : List Submission → ℕ
failures [] = 0
failures (s ∷ submissions) = (if str_eq s.status "failed" then 1 else 0) + failures submissions

-- The submissions of the last hour, if the query answers.
unfoldable pub get_soroban_metrics : Option (List Submission) → SorobanMetrics
unfolding failures
get_soroban_metrics none = record { successes = 0; failure_count = 0; total_count = 0 }
get_soroban_metrics (some submissions) = record {
  successes = length submissions - failures submissions;
  failure_count = failures submissions;
  total_count = length submissions;
}

abbrev pub count_or_zero : Option ℕ → ℕ
count_or_zero none = 0
count_or_zero (some n) = n

-- What the four queries of the dashboard answer.
pub record Answers : Type 0 where
  pub active_listings : Option ℕ
  pub daily_retirements : Option ℕ
  pub latest_update : Option (Option ℕ)
  pub submissions : Option (List Submission)

abbrev pub check_staleness? : ℕ → Option ℕ → Webhook → Webhook
check_staleness? now none w = w
check_staleness? now (some t) w = check_oracle_data_staleness now t w

unfoldable pub get_dashboard_metrics : ℕ → Answers → Webhook → DashboardMetrics × Webhook
unfolding get_oracle_status get_soroban_metrics check_oracle_data_staleness
    check_soroban_failure_rate
get_dashboard_metrics now answers w =
    let oracle = get_oracle_status now answers.latest_update in
    let soroban = get_soroban_metrics answers.submissions in
    let w1 = check_staleness? now oracle.last_update w in
    let w2 =
      if ltb 0 soroban.total_count
      then check_soroban_failure_rate soroban.failure_count soroban.total_count w1
      else w1 in
    (
      record {
        active_listings = count_or_zero answers.active_listings;
        daily_retirements = count_or_zero answers.daily_retirements;
        oracle_status = oracle;
        soroban_metrics = soroban;
      },
      w2,
    )

-- `trackSorobanSubmission`; a write that fails is logged and left out.
unfoldable pub track_soroban_submission : Bool → Submission → List Submission → List Submission
track_soroban_submission writes s submissions = if writes then s ∷ submissions else submissions
