-- ===== src/Frontend/Registration.antt =====
-- frontend/components/ProjectRegistrationForm.tsx: the form in three steps. `magnitude` is the absolute
-- value of `Number(text)` in millionths, none where that is NaN.
use carbonledger.Base.{
  ℕ, ◌+◌, ◌-◌, ◌*◌, ltb, ◌==◌, ◌&&◌, ◌||◌, not, Bool, true, false, Option, none, some, List, [],
  ◌∷◌, ◌++◌, if◌then◌else◌,
}
use carbonledger.Frontend.Texts.{Text, is_empty, is_blank, is_email}

pub record FormState : Type 0 where
  pub name : Text
  pub methodology : Text
  pub project_type : Text
  pub country : Text
  pub latitude : Text
  pub longitude : Text
  pub vintage_year : Text
  pub description : Text
  pub contact_email : Text
  pub documents_cid : Text
  pub developer_public_key : Text

-- The keys of the form; `upload` is the message of a failed upload under the key of the documents.
pub data Key : Type 0 where
  name methodology project_type country latitude longitude vintage_year : Key
  description contact_email documents_cid developer_public_key upload : Key

unfoldable pub set : Key → Text → FormState → FormState
set name t f = record f { name = t }
set methodology t f = record f { methodology = t }
set project_type t f = record f { project_type = t }
set country t f = record f { country = t }
set latitude t f = record f { latitude = t }
set longitude t f = record f { longitude = t }
set vintage_year t f = record f { vintage_year = t }
set description t f = record f { description = t }
set contact_email t f = record f { contact_email = t }
set documents_cid t f = record f { documents_cid = t }
set developer_public_key t f = record f { developer_public_key = t }
set upload t f = f

pub data Status : Type 0 where
  idle loading success error : Status

abbrev pub is_loading : Status → Bool
is_loading loading = true
is_loading _ = false

abbrev pub is_success : Status → Bool
is_success success = true
is_success _ = false

-- The component's state, and the forms that were sent.
pub record State : Type 0 where
  pub step : ℕ
  pub form : FormState
  pub doc_file : Bool
  pub uploading : Bool
  pub status : Status
  pub errors : List Key
  pub sent : List FormState

abbrev pub error_if : Bool → Key → List Key
error_if wrong key = if wrong then key ∷ [] else []

abbrev pub none_left : List Key → Bool
none_left [] = true
none_left (k ∷ ks) = false

unfoldable pub errors_of_step1 : State → List Key
errors_of_step1 s = error_if (is_blank s.form.documents_cid && not s.doc_file) documents_cid

abbrev pub with_errors : List Key → State → State
with_errors errors s = record s { errors = errors }

abbrev pub next_step : State → State
next_step s = record s { errors = []; step = s.step + 1 }

-- The start of an upload; its answer comes later.
unfoldable pub upload_to_ipfs : State → State
upload_to_ipfs s = if s.doc_file then record s { uploading = true } else s

unfoldable pub uploaded : Option Text → State → State
uploaded none s = record s { errors = upload ∷ s.errors; uploading = false }
uploaded (some cid) s = record s {
  form = record (s.form) { documents_cid = cid };
  uploading = false;
}

-- The start of a submission, and its answer.
unfoldable pub submit : State → State
submit s = record s { status = loading; sent = s.sent ++ s.form ∷ [] }

unfoldable pub answered : Bool → State → State
answered ok s = record s { status = if ok then success else error }

-- What may happen on the page: the inputs and buttons that it shows, and the answers.
pub data Event : Type 0 where
  type_in : Key → Text → Event
  pick_file : Bool → Event
  press_upload press_next press_back press_submit : Event
  upload_answer : Option Text → Event
  submit_answer : Bool → Event

abbrev pub shown_first : Key → Bool
shown_first documents_cid = false
shown_first upload = false
shown_first _ = true

abbrev pub shown_second : Key → Bool
shown_second documents_cid = true
shown_second _ = false

-- The inputs of the steps, and when a button is there and not disabled.
unfoldable pub is_offered : Event → State → Bool
is_offered (type_in key t) s =
    not (is_success s.status)
    && (((s.step == 0) && shown_first key) || ((s.step == 1) && shown_second key))
is_offered (pick_file any) s = not (is_success s.status) && (s.step == 1)
is_offered press_upload s =
    not (is_success s.status)
    && (s.step == 1)
    && s.doc_file
    && is_empty s.form.documents_cid
    && not s.uploading
is_offered press_next s = not (is_success s.status) && ltb s.step 2
is_offered press_back s = not (is_success s.status) && ltb 0 s.step
is_offered press_submit s =
    not (is_success s.status) && not (ltb s.step 2) && not (is_loading s.status)
is_offered (upload_answer a) s = s.uploading
is_offered (submit_answer ok) s = is_loading s.status

module _ (magnitude : Text → Option ℕ) where
  -- `!text || isNaN(Number(text)) || Math.abs(Number(text)) > limit`
  abbrev pub is_out : Text → ℕ → Bool
  is_out t limit =
      is_empty t || (elim (magnitude t) [ none ↦ true | some n ↦ ltb (limit * 1000000) n ])

  abbrev pub is_no_number : Text → Bool
  is_no_number t = is_empty t || (elim (magnitude t) [ none ↦ true | some n ↦ false ])

  unfoldable pub errors_of_step0 : FormState → List Key
  errors_of_step0 f =
      error_if (is_blank f.name) name
      ++ error_if (is_empty f.methodology) methodology
      ++ error_if (is_empty f.project_type) project_type
      ++ error_if (is_empty f.country) country
      ++ error_if (is_out f.latitude 90) latitude
      ++ error_if (is_out f.longitude 180) longitude
      ++ error_if (is_no_number f.vintage_year) vintage_year
      ++ error_if (is_empty f.contact_email || not (is_email f.contact_email)) contact_email
      ++ error_if (is_blank f.developer_public_key) developer_public_key

  unfoldable pub advance : State → State
  unfolding errors_of_step0 errors_of_step1
  advance s =
      let e0 = errors_of_step0 s.form in
      let e1 = errors_of_step1 s in
      if (s.step == 0) && not (none_left e0)
      then with_errors e0 s
      else if (s.step == 1) && not (none_left e1)
      then with_errors e1 s
      else next_step s

  unfoldable pub react : Event → State → State
  unfolding set advance upload_to_ipfs uploaded submit answered
  react (type_in key t) s = record s { form = set key t s.form }
  react (pick_file any) s = record s { doc_file = any; errors = [] }
  react press_upload s = upload_to_ipfs s
  react press_next s = advance s
  react press_back s = record s { step = s.step - 1 }
  react press_submit s = submit s
  react (upload_answer a) s = uploaded a s
  react (submit_answer ok) s = answered ok s

  unfoldable pub event : Event → State → State
  unfolding is_offered react
  event e s = if is_offered e s then react e s else s
