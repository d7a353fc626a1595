-- ===== src/Uploads/Lifecycle.antt =====
-- backend/src/uploads: what an upload leaves on every branch, and bounds that every file meets.
use carbonledger.Base.{
  ℕ, ltb, String, ◌≡◌, ◌≢◌, Bool, true, false, not, Option, none, some, arith, eq_iff,
  if◌then◌else◌,
}
use carbonledger.Prisma.{Prisma}
use carbonledger.Schema.{pending, IpfsFile, Db}
use carbonledger.Action.{Error, Result, ok, err, plain}
use carbonledger.Tables.{files}
use carbonledger.Tables.Laws.{create_free, update_found}
use carbonledger.Uploads.Service.{
  Upload, UploadResult, is_allowed, max_size, new_file, with_cid, with_failed, PinataStatus,
  status_of, with_webhook, send, mark_failed, upload_to_pinata, handle_pinata_webhook,
  pinata_webhook,
}

-- Why an upload is refused before anything is written.
abbrev pub refusal : Bool → Upload → Option Error
refusal configured upload =
    if not (is_allowed upload.file_type)
    then some (plain "Invalid file type")
    else if ltb max_size upload.file_size
    then some (plain "File size exceeds the maximum")
    else if configured
    then none
    else some (plain "Pinata API credentials not configured")

-- What the caller is told, and the row that is left.
abbrev pub told : Option Error → Option String → String → Result UploadResult
told (some e) answer id = err e
told none none id = err (plain "Pinata upload failed")
told none (some cid) id = ok (record { id = id; cid = cid; pin_status = pending })

abbrev pub left : Option Error → Option String → Upload → Option IpfsFile
left (some e) answer upload = none
left none none upload = some (with_failed (new_file upload))
left none (some cid) upload = some (with_cid cid (new_file upload))

module _ (prisma : Prisma) where
  -- An upload under a new identifier is refused without a row, or leaves a row that is pending with
  -- the identifier that Pinata gave, or one that is marked as failed; the caller is told which.
  pub upload_lem :
      (configured : Bool) (answer : Option String) (id : String) (upload : Upload) (db : Db prisma)
      → prisma.find_unique {V = IpfsFile} id db.files ≡ none
      → let (result, db') = upload_to_pinata prisma configured answer id upload db in
        (result ≡ told (refusal configured upload) answer id)
        × (prisma.find_unique id db'.files ≡ left (refusal configured upload) answer upload)
  unfolding upload_to_pinata send mark_failed
  upload_lem configured none id upload db fresh =
      let made = create_free (files prisma) id (new_file upload) db fresh in
      let db' = record db { files = prisma.upsert id (λ f. f) (new_file upload) db.files } in
      let row = prisma.find-upsert_self id (λ f. f) (new_file upload) db.files in
      let marked = update_found (files prisma) {row = new_file upload} id with_failed db' in
      let row' = prisma.find-upsert_self id with_failed (new_file upload) db'.files in
      (ground (arith, fresh, made, row, marked), ground (arith, fresh, made, row, marked, row'))
  upload_lem configured (some cid) id upload db fresh =
      let made = create_free (files prisma) id (new_file upload) db fresh in
      let db' = record db { files = prisma.upsert id (λ f. f) (new_file upload) db.files } in
      let row = prisma.find-upsert_self id (λ f. f) (new_file upload) db.files in
      let marked = update_found (files prisma) {row = new_file upload} id (with_cid cid) db' in
      let row' = prisma.find-upsert_self id (with_cid cid) (new_file upload) db'.files in
      (ground (arith, fresh, made, row, marked), ground (arith, fresh, made, row, marked, row'))

module _ (prisma : Prisma) where
  -- Pinata's call needs no login, and one with a status that it does not name sets a stored file
  -- back to pending, a pinned one too, whose time of pinning stays.
  pub webhook_unpins :
      (data_ : PinataStatus) (id : String) (now : ℕ) (file : IpfsFile) (db : Db prisma)
      → data_.id ≡ some id
      → data_.status ≢ "pinned"
      → data_.status ≢ "failed"
      → data_.has_error ≡ false
      → prisma.find_unique id db.files ≡ some file
      → let (result, db') = pinata_webhook prisma data_ now db in
        (result ≡ ok (record file { pin_status = pending }))
        × (prisma.find_unique id db'.files ≡ some (record file { pin_status = pending }))
  unfolding pinata_webhook handle_pinata_webhook status_of
  webhook_unpins data_ id now file db named p f e found =
      let done = update_found (files prisma) id (with_webhook data_ now) db found in
      let row = prisma.find-upsert_self id (with_webhook data_ now) file db.files in
      (
        ground (arith, named, done, eq_iff data_.status "pinned", eq_iff data_.status "failed"),
        ground
            (arith, named, done, row, eq_iff data_.status "pinned", eq_iff data_.status "failed"),
      )

  -- The database after an upload that Pinata takes.
  abbrev pub after_upload : String → String → Upload → Db prisma → Db prisma
  after_upload cid id upload db = record db {
    files =
        prisma.upsert id (with_cid cid) (new_file upload)
          (prisma.upsert id (λ f. f) (new_file upload) db.files);
  }

  pub upload_taken :
      (cid id : String) (upload : Upload) (db : Db prisma)
      → prisma.find_unique {V = IpfsFile} id db.files ≡ none
      → refusal true upload ≡ none
      → upload_to_pinata prisma true (some cid) id upload db
        ≡ (ok (record { id = id; cid = cid; pin_status = pending }), after_upload cid id upload db)
  unfolding upload_to_pinata send mark_failed
  upload_taken cid id upload db fresh accepted =
      let made = create_free (files prisma) id (new_file upload) db fresh in
      let db' = record db { files = prisma.upsert id (λ f. f) (new_file upload) db.files } in
      let row = prisma.find-upsert_self id (λ f. f) (new_file upload) db.files in
      let marked = update_found (files prisma) {row = new_file upload} id (with_cid cid) db' in
      ground (arith, fresh, made, row, marked)
