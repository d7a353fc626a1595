-- ===== src/Uploads/Service.antt =====
-- backend/src/uploads/ipfs-upload.service.ts and uploads.controller.ts. The pinning service is not
-- part of the repository: what it answers to a call is an argument, `none` where the call fails.
-- `configured` says whether its credentials are set, and `id` is the identifier that the database
-- gives to a new row.
use carbonledger.Base.{ℕ, ltb, String, Bool, not, ◌||◌, Option, none, some, str_eq, if◌then◌else◌}
use carbonledger.Prisma.{Prisma}
use carbonledger.Schema.{PinStatus, pending, pinned, failed, IpfsFile, Db}
use carbonledger.Action.{
  Action, Error, plain, internal, bad_request, not_found, ◌>>=◌, ◌>>◌, pure, throw, throw_if,
  or_throw, try_catch,
}
use carbonledger.Tables.{files, find_unique, find_first, create, update}

-- The arguments of an upload.
pub record Upload : Type 0 where
  pub file_name : String
  pub file_type : String
  pub file_size : ℕ
  pub linked_entity_type : String
  pub linked_entity_id : String

pub record UploadResult : Type 0 where
  pub id : String
  pub cid : String
  pub pin_status : PinStatus

abbrev pub is_allowed : String → Bool
is_allowed file_type = str_eq file_type "application/pdf" || str_eq file_type "application/json"

abbrev pub max_size : ℕ
max_size = 52428800

abbrev pub new_file : Upload → IpfsFile
new_file upload = record {
  cid = "";
  file_name = upload.file_name;
  file_type = upload.file_type;
  file_size = upload.file_size;
  pin_status = pending;
  linked_entity_type = upload.linked_entity_type;
  linked_entity_id = upload.linked_entity_id;
  pinned_at = none;
}

abbrev pub with_cid : String → IpfsFile → IpfsFile
with_cid cid file = record file { cid = cid }

abbrev pub with_failed : IpfsFile → IpfsFile
with_failed file = record file { pin_status = failed }

abbrev pub with_pinned : ℕ → IpfsFile → IpfsFile
with_pinned now file = record file { pin_status = pinned; pinned_at = some now }

-- The body of Pinata's call: `status`, and whether `pinataApiError` is set.
pub record PinataStatus : Type 0 where
  pub id : Option String
  pub status : String
  pub has_error : Bool

unfoldable pub status_of : PinataStatus → PinStatus
status_of data_ =
    if str_eq data_.status "pinned"
    then pinned
    else if str_eq data_.status "failed" || data_.has_error
    then failed
    else pending

abbrev pub with_webhook : PinataStatus → ℕ → IpfsFile → IpfsFile
with_webhook data_ now file = record file {
  pin_status = status_of data_;
  pinned_at = if str_eq data_.status "pinned" then some now else file.pinned_at;
}

module _ (prisma : Prisma) where
  -- The `try` of an upload: the call of Pinata, and the row that is given the identifier.
  unfoldable pub send : Option String → String → Action (Db prisma) UploadResult
  unfolding update
  send answer id = do
    cid ← or_throw answer (plain "request failed")
    update (files prisma) id (with_cid cid)
    pure (record { id = id; cid = cid; pin_status = pending })

  unfoldable pub mark_failed : String → Error → Action (Db prisma) UploadResult
  unfolding update
  mark_failed id e = do update (files prisma) id with_failed; throw (plain "Pinata upload failed")

  unfoldable pub upload_to_pinata :
      Bool → Option String → String → Upload → Action (Db prisma) UploadResult
  unfolding create send mark_failed
  upload_to_pinata configured answer id upload = do
    throw_if (not (is_allowed upload.file_type)) (plain "Invalid file type")
    throw_if (ltb max_size upload.file_size) (plain "File size exceeds the maximum")
    throw_if (not configured) (plain "Pinata API credentials not configured")
    create (files prisma) id (new_file upload)
    try_catch (send answer id) (mark_failed id)

  -- The `try` of the call that pins a file; `pins` says whether Pinata takes it.
  unfoldable pub pin_file : Bool → Bool → String → ℕ → Action (Db prisma) IpfsFile
  unfolding find_unique update
  pin_file configured pins id now = do
    throw_if (not configured) (plain "Pinata API credentials not configured")
    found ← find_unique (files prisma) id
    file ← or_throw found (plain "File record not found or CID not available")
    throw_if (str_eq file.cid "") (plain "File record not found or CID not available")
    throw_if (not pins) (plain "request failed")
    update (files prisma) id (with_pinned now)

  unfoldable pub pin_file_async : Bool → Bool → String → ℕ → Action (Db prisma) IpfsFile
  unfolding pin_file update
  pin_file_async configured pins id now =
      try_catch (pin_file configured pins id now) (λ e. update (files prisma) id with_failed)

  unfoldable pub handle_pinata_webhook : PinataStatus → ℕ → Action (Db prisma) IpfsFile
  unfolding update
  handle_pinata_webhook data_ now = do
    id ← or_throw data_.id (plain "Webhook missing file ID")
    update (files prisma) id (with_webhook data_ now)

  abbrev pub get_file_by_cid : String → Action (Db prisma) (Option IpfsFile)
  get_file_by_cid cid = find_first (files prisma) (λ file. str_eq file.cid cid)

  -- The handlers of the controller. Every error of the service becomes one of status 500.
  abbrev pub as_internal : {A : Type 0} → Error → Action (Db prisma) A
  as_internal e = throw (internal "File upload failed")

  unfoldable pub upload_project_document :
      Bool → Option String → String → Option Upload → String → Action (Db prisma) UploadResult
  unfolding upload_to_pinata
  upload_project_document configured answer id file project_id = do
    upload ← or_throw file (bad_request "No file uploaded")
    throw_if (not (is_allowed upload.file_type)) (bad_request "Invalid file type")
    throw_if (ltb max_size upload.file_size) (bad_request "File size exceeds 50MB limit")
    try_catch
        (upload_to_pinata configured answer id
          (record upload { linked_entity_type = "project"; linked_entity_id = project_id }))
        as_internal

  unfoldable pub upload_certificate :
      Bool → Option String → String → Option Upload → String → Action (Db prisma) UploadResult
  unfolding upload_to_pinata
  upload_certificate configured answer id file retirement_id = do
    upload ← or_throw file (bad_request "No file uploaded")
    throw_if (not (str_eq upload.file_type "application/pdf")) (bad_request "Invalid file type")
    throw_if (ltb max_size upload.file_size) (bad_request "File size exceeds 50MB limit")
    try_catch
        (upload_to_pinata configured answer id
          (record upload { linked_entity_type = "certificate"; linked_entity_id = retirement_id }))
        as_internal

  unfoldable pub pinata_webhook : PinataStatus → ℕ → Action (Db prisma) IpfsFile
  unfolding handle_pinata_webhook
  pinata_webhook data_ now = try_catch (handle_pinata_webhook data_ now) as_internal

  unfoldable pub file_by_cid : String → Action (Db prisma) IpfsFile
  unfolding find_first
  file_by_cid cid = do found ← get_file_by_cid cid; or_throw found (not_found "File not found")
