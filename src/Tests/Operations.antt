-- ===== src/Tests/Operations.antt =====
-- The audit log, the monitoring and the statistics at concrete inputs.
use carbonledger.Base.{
  Option, ℕ, ◌+◌, String, Bool, true, false, none, some, List, [], ◌∷◌, ◌++◌, ◌≡◌, refl, ◌&&◌,
  if◌then◌else◌,
}
use carbonledger.Prisma.Memory.{memory}
use carbonledger.Action.{Action, Error, err, conflict}
use carbonledger.Audit.{HttpRequest, Logged, is_due, due, intercept, intercept_lem}
use carbonledger.Monitoring.Service.{Webhook, Answers, get_dashboard_metrics}
use carbonledger.Monitoring.Alerts.{stale_alerts, rate_alerts, dashboard_alerts}
use carbonledger.Marketplace.Service.{Market}
use carbonledger.Exports.Service.{Text, comma, join, cell, text}
use carbonledger.Exports.Reading.{read_row, read_row-join}
use carbonledger.Tests.Samples.{sample}

abbrev includes : String → String → Bool
includes url part = false

abbrev join_path : String → String → String
join_path a b = a

abbrev message : Error → String
message e = "conflict"

abbrev delete_project : HttpRequest
delete_project = record {
  method = "DELETE";
  url = "/projects/p1";
  user_id = "";
  user_public_key = "own";
  body_id = "";
  body_project_id = "p1";
  body_batch_id = "";
  body_retirement_id = "";
  ip = "10.0.0.1";
}

abbrev failing : Action ℕ String
failing n = (err (conflict "Conflict"), n + 1)

abbrev no_log : Logged ℕ
no_log = record { state = 4; log = [] }

intercept_lem_example :
    ((
      (intercept includes join_path message true delete_project failing no_log).0,
      (intercept includes join_path message true delete_project failing no_log).1.state,
    )
      ≡ failing 4)
    × ((intercept includes join_path message true delete_project failing no_log).1.log ≡ (
        if is_due includes join_path message delete_project && true
        then due includes join_path message delete_project
            (intercept includes join_path message true delete_project failing no_log).0
          ∷ []
        else []))
intercept_lem_example = intercept_lem includes join_path message true delete_project failing no_log

abbrev answers : Answers
answers = record {
  active_listings = some 3;
  daily_retirements = none;
  latest_update = some (some 0);
  submissions = some (record { contract_id = "c"; status = "failed"; created_at = 1 } ∷ []);
}

abbrev hook : Webhook
hook = record { configured = true; accepts = true; received = [] }

dashboard_alerts_example :
    (get_dashboard_metrics 9000000000 answers hook).1.received
    ≡ []
      ++ (stale_alerts (get_dashboard_metrics 9000000000 answers hook).0.oracle_status
          ++ rate_alerts (get_dashboard_metrics 9000000000 answers hook).0.soroban_metrics)
dashboard_alerts_example = dashboard_alerts 9000000000 answers hook refl

abbrev market : Market memory
market = record { db = sample; cached = λ key. none }

abbrev five : String → Option ℕ
five price = some 5

abbrev two_texts : List Text
two_texts = (b'a' ∷ b',' ∷ b'"' ∷ []) ∷ (b'"' ∷ 10 ∷ b'b' ∷ []) ∷ []

read_row-join_example :
    read_row 2 (
      join
        (comma ∷ [])
        (cell (text (b'a' ∷ b',' ∷ b'"' ∷ [])) ∷ cell (text (b'"' ∷ 10 ∷ b'b' ∷ [])) ∷ []))
    ≡ two_texts
read_row-join_example = read_row-join two_texts
