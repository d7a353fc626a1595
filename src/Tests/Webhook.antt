-- ===== src/Tests/Webhook.antt =====
-- The webhook at concrete inputs.
use carbonledger.Base.{some, none, [], ◌∷◌, ◌≡◌, refl}
use carbonledger.Prisma.Memory.{memory}
use carbonledger.Schema.{ProjectStatus}
use carbonledger.Webhook.Listener.{
  EventType, credit_minted, credit_retired, project_verified, minted_word, parse_type,
}
use carbonledger.Webhook.Processor.{Payload, HorizonEvent, process_jobs}
use carbonledger.Webhook.Totals.{issued_by, sum_by, HasGrown, process_jobs-HasGrown}
use carbonledger.Tests.Samples.{sample, project}

abbrev payload : Payload
payload = record {
  batch_id = some "b7";
  project_id = some "p1";
  retirement_id = some "r7";
  amount = some 400;
  vintage_year = some 2024;
  serial_start = none;
  serial_end = none;
  retired_by = some "own";
  beneficiary = some "ben";
}

abbrev event : EventType → HorizonEvent
event type_ = record { type_ = type_; tx_hash = "tx"; payload = payload }

mint_topic_parses : parse_type ((b'c' ∷ []) ∷ minted_word ∷ []) ≡ some credit_minted
unfolding parse_type
mint_topic_parses = refl

process_jobs-HasGrown_example : HasGrown memory "p1" 800 (project "p1" ProjectStatus.verified) (
    process_jobs memory
      (event credit_minted ∷ event credit_retired ∷ event credit_minted ∷ [])
      sample)
unfolding sum_by issued_by
process_jobs-HasGrown_example =
    process_jobs-HasGrown memory "p1"
      (event credit_minted ∷ event credit_retired ∷ event credit_minted ∷ [])
      (project "p1" ProjectStatus.verified) sample refl

abbrev rejected_event : HorizonEvent
rejected_event = record (event project_verified) {
  payload = record payload { project_id = some "p2" };
}
