-- ===== src/Tests/Uploads.antt =====
-- Uploads, certificates and pages at concrete inputs.
use carbonledger.Base.{◌≢◌, eq_iff, true, false, none, some, [], ◌∷◌, ◌≡◌, refl, arith}
use carbonledger.Prisma.Memory.{memory, lookup}
use carbonledger.Schema.{IpfsFile, pinned, Db, Project, ProjectStatus, RetirementRecord}
use carbonledger.Uploads.Service.{Upload, PinataStatus, new_file, upload_to_pinata}
use carbonledger.Uploads.Lifecycle.{refusal, told, left, upload_lem}
use carbonledger.Uploads.Bounds.{AreBounded, document, pin, calls, calls-AreBounded}
use carbonledger.Tests.Samples.{sample, empty, project}

abbrev paper : Upload
paper = record {
  file_name = "design.pdf";
  file_type = "application/pdf";
  file_size = 4096;
  linked_entity_type = "project";
  linked_entity_id = "p1";
}

upload_lem_example :
    ((upload_to_pinata memory true (some "cid7") "f1" paper sample).0
      ≡ told (refusal true paper) (some "cid7") "f1")
    × (lookup "f1" (upload_to_pinata memory true (some "cid7") "f1" paper sample).1.files
        ≡ left (refusal true paper) (some "cid7") paper)
upload_lem_example = upload_lem memory true (some "cid7") "f1" paper sample refl

empty-AreBounded : AreBounded memory empty
empty-AreBounded k file e = cc

calls-AreBounded_example : AreBounded memory (
    calls memory
      (document true (some "cid7") "f1" (some paper) "p1" ∷ pin true true "f1" 40 ∷ [])
      empty)
calls-AreBounded_example =
    calls-AreBounded memory
      (document true (some "cid7") "f1" (some paper) "p1" ∷ pin true true "f1" 40 ∷ []) empty
      empty-AreBounded

abbrev pinned_file : IpfsFile
pinned_file = record (new_file paper) { cid = "cid7"; pin_status = pinned; pinned_at = some 40 }

abbrev pinned_db : Db memory
pinned_db = record sample { files = ("f1", pinned_file) ∷ [] }

abbrev searching : PinataStatus
searching = record { id = some "f1"; status = "searching"; has_error = false }

searching-ne-pinned : searching.status ≢ "pinned"
searching-ne-pinned e = ground (arith, eq_iff "searching" "pinned", e)

searching-ne-failed : searching.status ≢ "failed"
searching-ne-failed e = ground (arith, eq_iff "searching" "failed", e)

abbrev retired : RetirementRecord
retired = record {
  retirement_id = "r5";
  batch_id = "b1";
  project_id = "p1";
  amount = 20;
  retired_by = "own";
  beneficiary = "ben";
  retirement_reason = "offset";
  vintage_year = 2023;
  serial_start = b'1' ∷ b'0' ∷ [];
  serial_end = b'2' ∷ b'9' ∷ [];
  serial_numbers = 10 ∷ 29 ∷ [];
  tx_hash = "tx";
  certificate_cid = none;
  is_valid = true;
}

abbrev forest : Project
forest = project "p1" ProjectStatus.verified
