-- ===== src/Webhook/Processor.antt =====
-- backend/src/webhook/webhook.processor.ts. A payload's field is `none` where the event lacks it.
use carbonledger.Base.{
  ℕ, ◌+◌, String, Bool, true, false, ◌||◌, ◌&&◌, Option, none, some, List, [], ◌∷◌, str_eq,
  if◌then◌else◌,
}
use carbonledger.Prisma.{Prisma}
use carbonledger.Schema.{Project, verified, Serial, CreditBatch, active, Db}
use carbonledger.Action.{Action, ◌>>◌, pure, throw, throw_if, internal}
use carbonledger.Tables.{projects, batches, upsert, update_many}
use carbonledger.Credits.Service.{add_retired, with_batch_status}
use carbonledger.Webhook.Listener.{
  EventType, credit_minted, credit_retired, project_verified, unknown,
}

pub record Payload : Type 0 where
  pub batch_id : Option String
  pub project_id : Option String
  pub retirement_id : Option String
  pub amount : Option ℕ
  pub vintage_year : Option ℕ
  pub serial_start : Option Serial
  pub serial_end : Option Serial
  pub retired_by : Option String
  pub beneficiary : Option String

pub record HorizonEvent : Type 0 where
  pub type_ : EventType
  pub tx_hash : String
  pub payload : Payload

-- `value ?? otherwise`
abbrev pub or_else : {A : Type 0} → Option A → A → A
or_else none otherwise = otherwise
or_else (some a) otherwise = a

-- `!value`
abbrev pub is_falsy : Option String → Bool
is_falsy none = true
is_falsy (some s) = str_eq s ""

-- `String(value)`
abbrev pub to_text : Option String → String
to_text value = or_else value "undefined"

abbrev pub minted_batch : Payload → CreditBatch
minted_batch p = record {
  batch_id = to_text p.batch_id;
  project_id = to_text p.project_id;
  vintage_year = or_else p.vintage_year 0;
  amount = or_else p.amount 0;
  serial_start = or_else p.serial_start [];
  serial_end = or_else p.serial_end [];
  status = active;
  metadata_cid = "";
}

abbrev pub add_issued : ℕ → Project → Project
add_issued amount project = record project {
  total_credits_issued = project.total_credits_issued + amount;
}

abbrev pub set_verified : Project → Project
set_verified project = record project { status = verified }

abbrev pub is_none : {V : Type 0} → Option V → Bool
is_none none = true
is_none (some v) = false

module _ (prisma : Prisma) where
  -- The `upsert` of the batch, whose project the database looks up where the batch is new.
  unfoldable pub upsert_batch : Payload → Action (Db prisma) (Unit {0})
  unfolding upsert
  upsert_batch p db =
      (throw_if
            (is_none (prisma.find_unique (to_text p.batch_id) db.batches)
              && is_none (prisma.find_unique (to_text p.project_id) db.projects))
            (internal "Foreign key constraint failed")
          >> upsert (batches prisma) (to_text p.batch_id) (with_batch_status active)
              (minted_batch p))
        db

  unfoldable pub handle_credit_minted : Payload → Action (Db prisma) (Unit {0})
  unfolding upsert_batch
  handle_credit_minted p db =
      if is_falsy p.batch_id || is_falsy p.project_id
      then (pure tt) db
      else (upsert_batch p
            >> update_many (projects prisma) (to_text p.project_id)
                (add_issued (or_else p.amount 0)))
          db

  -- The `upsert` of the retirement has no `serialStart` and no `serialEnd` in its `create`, which the
  -- schema requires: the client refuses the call, whether the row is there or not.
  unfoldable pub upsert_retirement : Payload → Action (Db prisma) (Unit {0})
  upsert_retirement p = throw (internal "Argument `serialStart` is missing")

  unfoldable pub handle_credit_retired : Payload → Action (Db prisma) (Unit {0})
  unfolding upsert_retirement
  handle_credit_retired p db =
      if is_falsy p.retirement_id || is_falsy p.batch_id
      then (pure tt) db
      else (upsert_retirement p
            >> update_many (projects prisma) (to_text p.project_id)
                (add_retired (or_else p.amount 0)))
          db

  unfoldable pub handle_project_verified : Payload → Action (Db prisma) (Unit {0})
  handle_project_verified p db =
      if is_falsy p.project_id
      then (pure tt) db
      else update_many (projects prisma) (to_text p.project_id) set_verified db

  unfoldable pub process_type : EventType → HorizonEvent → Action (Db prisma) (Unit {0})
  unfolding handle_credit_minted handle_credit_retired handle_project_verified
  process_type credit_minted event db = handle_credit_minted event.payload db
  process_type credit_retired event db = handle_credit_retired event.payload db
  process_type project_verified event db = handle_project_verified event.payload db
  process_type unknown event db = (pure tt) db

  abbrev pub process : HorizonEvent → Action (Db prisma) (Unit {0})
  process event = process_type event.type_ event

  -- The jobs of the queue, in order; a job that the queue delivers again stands in it twice.
  unfoldable pub process_jobs : List HorizonEvent → Db prisma → Db prisma
  unfolding process_type
  process_jobs [] db = db
  process_jobs (event ∷ events) db = let (_, db') = process event db in process_jobs events db'
