-- ===== src/Uploads/Certificates.antt =====
-- backend/src/retirements/certificate.service.ts. The answers of the pinning service are arguments,
-- as in the uploads; `json_size` is the length of the text that the runtime prints of a certificate.
use Prim.Native.String
use carbonledger.Base.{
  ℕ, suc, ◌+◌, ◌-◌, ◌*◌, ◌≤◌, String, ◌≡◌, Bool, true, Option, none, some, List, [], ◌∷◌,
  if◌then◌else◌, arith,
}
use carbonledger.Base.Digits.{is_digit}
use carbonledger.Prisma.{Prisma}
use carbonledger.Schema.{Serial, Project, RetirementRecord, IpfsFile, Db}
use carbonledger.Action.{Action, ok, record_missing, ◌>>=◌, ◌>>◌, pure, or_throw}
use carbonledger.Tables.{projects, retirements, find_unique, update}
use carbonledger.Tables.Laws.{update_found}
use carbonledger.Credits.Service.{get_retirement, serials_from}
use carbonledger.Uploads.Lifecycle.{after_upload, upload_taken}
use carbonledger.Uploads.Service.{Upload, max_size, new_file, with_cid, upload_to_pinata}

-- `parseInt` of a text that starts with a digit; `none` is NaN.
unfoldable pub digits_value : ℕ → List ℕ → ℕ
digits_value acc [] = acc
digits_value acc (c ∷ s) = if is_digit c then digits_value (acc * 10 + (c - b'0')) s else acc

unfoldable pub parse_int : Serial → Option ℕ
unfolding digits_value
parse_int [] = none
parse_int (c ∷ s) = if is_digit c then some (digits_value 0 (c ∷ s)) else none

-- `for (let s = start; s <= end; s++)`, none where one of the texts is no number.
unfoldable pub expand : Option ℕ → Option ℕ → List ℕ
unfolding serials_from
expand none end = []
expand (some start) none = []
expand (some start) (some end) = serials_from start (suc end - start)

pub record Certificate : Type 0 where
  pub retirement_id : String
  pub credit_batch_id : String
  pub project_id : String
  pub amount : ℕ
  pub retired_by : String
  pub beneficiary : String
  pub retirement_reason : String
  pub vintage_year : ℕ
  pub serial_numbers : List ℕ
  pub tx_hash : String
  pub certificate_cid : String
  pub project_name : String
  pub country : String
  pub methodology : String

unfoldable pub certificate_data : RetirementRecord → Project → Certificate
unfolding parse_int expand
certificate_data r p = record {
  retirement_id = r.retirement_id;
  credit_batch_id = r.batch_id;
  project_id = r.project_id;
  amount = r.amount;
  retired_by = r.retired_by;
  beneficiary = r.beneficiary;
  retirement_reason = r.retirement_reason;
  vintage_year = r.vintage_year;
  serial_numbers = expand (parse_int r.serial_start) (parse_int r.serial_end);
  tx_hash = r.tx_hash;
  certificate_cid = "";
  project_name = p.name;
  country = p.country;
  methodology = p.methodology;
}

-- `row_id` is the generated identifier of the row, which the model of a retirement leaves out.
abbrev pub certificate_file : ℕ → (row_id : String) → RetirementRecord → Upload
certificate_file size row_id r = record {
  file_name = String.◌++◌ "certificate-" (String.◌++◌ r.retirement_id ".json");
  file_type = "application/json";
  file_size = size;
  linked_entity_type = "certificate";
  linked_entity_id = row_id;
}

abbrev pub with_certificate : String → RetirementRecord → RetirementRecord
with_certificate cid r = record r { certificate_cid = some cid }

module _ (prisma : Prisma) (json_size : Certificate → ℕ) where
  -- The row of the project is there, since the column refers to it.
  unfoldable pub generate_and_pin_certificate :
      Bool → Option String → (id row_id retirement_id : String) → Action (Db prisma) String
  unfolding get_retirement find_unique update certificate_data upload_to_pinata
  generate_and_pin_certificate configured answer id row_id retirement_id = do
    r ← get_retirement prisma retirement_id
    found ← find_unique (projects prisma) r.project_id
    p ← or_throw found record_missing
    result ←
        upload_to_pinata prisma configured answer id
          (certificate_file (json_size (certificate_data r p)) row_id r)
    update (retirements prisma) retirement_id (with_certificate result.cid)
    pure result.cid

module _ (prisma : Prisma) (json_size : Certificate → ℕ) where
  -- Where Pinata takes the file of a stored retirement's certificate, the retirement points to the
  -- identifier that Pinata gave, and so does the row of the file, which is to be pinned.
  pub certificate_pins :
      (cid id row_id retirement_id : String) (r : RetirementRecord) (p : Project) (db : Db prisma)
      → prisma.find_unique retirement_id db.retirements ≡ some r
      → prisma.find_unique r.project_id db.projects ≡ some p
      → prisma.find_unique {V = IpfsFile} id db.files ≡ none
      → json_size (certificate_data r p) ≤ max_size
      → let file = certificate_file (json_size (certificate_data r p)) row_id r in
        let (result, db') =
          generate_and_pin_certificate prisma json_size true
            (some cid)
            id
            row_id
            retirement_id
            db in
        (result ≡ ok cid)
        × (prisma.find_unique retirement_id db'.retirements ≡ some (with_certificate cid r))
        × (prisma.find_unique id db'.files ≡ some (with_cid cid (new_file file)))
  unfolding generate_and_pin_certificate get_retirement
  certificate_pins cid id row_id retirement_id r p db found owned free small =
      let file = certificate_file (json_size (certificate_data r p)) row_id r in
      let uploaded = upload_taken prisma cid id file db free (ground arith) in
      let db' = after_upload prisma cid id file db in
      let pointed =
        update_found (retirements prisma) retirement_id (with_certificate cid) db' found in
      let row = prisma.find-upsert_self retirement_id (with_certificate cid) r db.retirements in
      let first = prisma.find-upsert_self id (λ f. f) (new_file file) db.files in
      let kept =
        prisma.find-upsert_self id (with_cid cid) (new_file file)
          (prisma.upsert id (λ f. f) (new_file file) db.files) in
      (
        ground (arith, found, owned, uploaded, pointed),
        ground (arith, found, owned, uploaded, pointed, row),
        ground (arith, found, owned, uploaded, pointed, first, kept),
      )
