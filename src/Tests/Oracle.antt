-- ===== src/Tests/Oracle.antt =====
-- The oracle at concrete inputs.
use carbonledger.Base.{String, []}
use Prim.Native.String
use carbonledger.Prisma.Memory.{memory}
use carbonledger.Oracle.Queue.{memory_queue}
use carbonledger.Oracle.Rows.{SubmitMonitoringDto, State, monitoring_key}
use carbonledger.Oracle.Submissions.{submit, work}
use carbonledger.Tests.Samples.{sample}

abbrev start : State memory memory_queue
start = record { db = sample; monitoring = []; updates = []; approvals = []; jobs = [] }

abbrev pair_key : String → String → String
pair_key a b = String.◌++◌ a (String.◌++◌ "/" b)

abbrev report : SubmitMonitoringDto
report = record {
  project_id = "p1";
  period = "2024-Q1";
  tonnes_verified = 120;
  methodology_score = 80;
  satellite_cid = "bafy";
  submitted_by = "ora";
}

abbrev worked : State memory memory_queue
worked =
    work memory memory_queue pair_key (monitoring_key report) "tx"
      (submit memory memory_queue pair_key report start)

abbrev corrected : SubmitMonitoringDto
corrected = record report { tonnes_verified = 90; methodology_score = 75 }
