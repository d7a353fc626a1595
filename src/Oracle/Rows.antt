-- ===== src/Oracle/Rows.antt =====
-- backend/src/oracle/oracle.service.ts: requests, the rows that are written for them, the keys of
-- updates and jobs, and the tables of the oracle.
use carbonledger.Base.{ℕ, ◌+◌, String, Option, none, some}
use Prim.Native.String
use carbonledger.Prisma.{Prisma}
use carbonledger.Schema.{Db}
use carbonledger.Oracle.Queue.{Queue}

pub record SubmitMonitoringDto : Type 0 where
  pub project_id : String
  pub period : String
  pub tonnes_verified : ℕ
  pub methodology_score : ℕ
  pub satellite_cid : String
  pub submitted_by : String

pub record UpdatePriceDto : Type 0 where
  pub methodology : String
  pub vintage_year : String
  pub price_usdc : String

pub record HoldPriceUpdateDto : Type 0 where
  pub methodology : String
  pub vintage_year : String
  pub price_stroops : String

pub record MonitoringData : Type 0 where
  pub project_id : String
  pub period : String
  pub tonnes_verified : ℕ
  pub methodology_score : ℕ
  pub satellite_cid : String
  pub submitted_by : String

pub data UpdateStatus : Type 0 where
  pending submitted failed : UpdateStatus

pub data UpdateKind : Type 0 where
  monitoring price : UpdateKind

-- A row of `oracleUpdate`; `what` holds the columns of its kind: the project and its period, or the
-- methodology and its vintage year.
pub record OracleUpdate : Type 0 where
  pub kind : UpdateKind
  pub what : String × String
  pub tonnes_verified : ℕ
  pub methodology_score : ℕ
  pub price_usdc : String
  pub status : UpdateStatus
  pub attempts : ℕ
  pub tx_hash : Option String
  pub last_error : Option String

pub data ApprovalStatus : Type 0 where
  pending approved rejected : ApprovalStatus

pub record PriceApproval : Type 0 where
  pub methodology : String
  pub vintage_year : String
  pub price_stroops : String
  pub status : ApprovalStatus
  pub reason : Option String

-- The tables of the oracle beside those of `Db`, and the queue. An update is found by its
-- idempotency key, which stands for its generated identifier as well.
pub record State (prisma : Prisma) (queue : Queue) : Type 0 where
  pub db : Db prisma
  pub monitoring : prisma.Rows MonitoringData
  pub updates : prisma.Rows OracleUpdate
  pub approvals : prisma.Rows PriceApproval
  pub jobs : queue.Jobs

-- `a:b:c`
abbrev pub colons : String → String → String → String
colons a b c = String.◌++◌ a (String.◌++◌ ":" (String.◌++◌ b (String.◌++◌ ":" c)))

abbrev pub monitoring_key : SubmitMonitoringDto → String
monitoring_key dto = colons "monitoring" dto.project_id dto.period

abbrev pub price_key : UpdatePriceDto → String
price_key dto = colons "price" dto.methodology dto.vintage_year

abbrev pub monitoring_job_id : SubmitMonitoringDto → String
monitoring_job_id dto = String.◌++◌ "oracle-monitoring-" (monitoring_key dto)

abbrev pub price_job_id : UpdatePriceDto → String
price_job_id dto = String.◌++◌ "oracle-price-" (price_key dto)

abbrev pub new_monitoring : SubmitMonitoringDto → MonitoringData
new_monitoring dto = record {
  project_id = dto.project_id;
  period = dto.period;
  tonnes_verified = dto.tonnes_verified;
  methodology_score = dto.methodology_score;
  satellite_cid = dto.satellite_cid;
  submitted_by = dto.submitted_by;
}

abbrev pub change_monitoring : SubmitMonitoringDto → MonitoringData → MonitoringData
change_monitoring dto row = record row {
  tonnes_verified = dto.tonnes_verified;
  methodology_score = dto.methodology_score;
  satellite_cid = dto.satellite_cid;
}

abbrev pub new_monitoring_update : SubmitMonitoringDto → OracleUpdate
new_monitoring_update dto = record {
  kind = monitoring;
  what = (dto.project_id, dto.period);
  tonnes_verified = dto.tonnes_verified;
  methodology_score = dto.methodology_score;
  price_usdc = "";
  status = pending;
  attempts = 0;
  tx_hash = none;
  last_error = none;
}

abbrev pub change_monitoring_update : SubmitMonitoringDto → OracleUpdate → OracleUpdate
change_monitoring_update dto row = record row {
  tonnes_verified = dto.tonnes_verified;
  methodology_score = dto.methodology_score;
  status = pending;
  last_error = none;
}

abbrev pub new_price_update : UpdatePriceDto → OracleUpdate
new_price_update dto = record {
  kind = price;
  what = (dto.methodology, dto.vintage_year);
  tonnes_verified = 0;
  methodology_score = 0;
  price_usdc = dto.price_usdc;
  status = pending;
  attempts = 0;
  tx_hash = none;
  last_error = none;
}

abbrev pub change_price_update : UpdatePriceDto → OracleUpdate → OracleUpdate
change_price_update dto row = record row {
  price_usdc = dto.price_usdc;
  status = pending;
  last_error = none;
}

abbrev pub begin_attempt : OracleUpdate → OracleUpdate
begin_attempt row = record row { status = pending; attempts = row.attempts + 1 }

abbrev pub mark_submitted : String → OracleUpdate → OracleUpdate
mark_submitted tx_hash row = record row {
  status = submitted;
  tx_hash = some tx_hash;
  last_error = none;
}

abbrev pub held_price : HoldPriceUpdateDto → PriceApproval
held_price dto = record {
  methodology = dto.methodology;
  vintage_year = dto.vintage_year;
  price_stroops = dto.price_stroops;
  status = pending;
  reason = none;
}
