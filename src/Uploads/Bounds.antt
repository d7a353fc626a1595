-- ===== src/Uploads/Bounds.antt =====
-- backend/src/uploads: what every file meets, whatever is called in whatever order.
use carbonledger.Base.{
  ℕ, ◌≤◌, ltb, String, ◌≡◌, ◌≢◌, ◌⊎◌, refl, Bool, true, false, not, Option, none, some, arith,
  str_eq, eq_iff, inl, inr, Bool-cases, Option-cases, List, [], ◌∷◌,
}
use carbonledger.Prisma.{Prisma}
use carbonledger.Schema.{pending, pinned, IpfsFile, Db}
use carbonledger.Action.{
  Action, Error, err, plain, bad_request, throw, ◌>>◌, or_throw, pure, try_catch,
}
use carbonledger.Action.Keeps.{Keeps, bind-Keeps, try_catch-Keeps, or_throw-Keeps, guard-Keeps}
use carbonledger.Tables.{files, create, update}
use carbonledger.Tables.Laws.{create_free, create_taken, update_found, update_missing, find-upsert}
use carbonledger.Uploads.Lifecycle.{refusal}
use carbonledger.Uploads.Service.{
  Upload, UploadResult, is_allowed, max_size, new_file, with_cid, with_failed, with_pinned,
  PinataStatus, status_of, with_webhook, send, mark_failed, upload_to_pinata, pin_file,
  pin_file_async, handle_pinata_webhook, upload_project_document, upload_certificate,
  pinata_webhook, as_internal,
}

-- What every file meets: an allowed type, a size of 50 MB at most, and a time if it is pinned.
pub record IsBounded (file : IpfsFile) : Type 0 where
  pub typed : is_allowed file.file_type ≡ true
  pub sized : file.file_size ≤ max_size
  pub stamped : file.pin_status ≡ pinned → file.pinned_at ≢ none

module _ (prisma : Prisma) where
  abbrev pub AreBounded : Db prisma → Type 0
  AreBounded db =
      (k : String) (file : IpfsFile) → prisma.find_unique k db.files ≡ some file → IsBounded file

  create-AreBounded :
      (id : String) (file : IpfsFile)
      → IsBounded file
      → Keeps AreBounded (create (files prisma) id file)
  create-AreBounded id file h db all = elim (Option-cases (prisma.find_unique id db.files)) [
    | inl free ↦ rw (create_free (files prisma) id file db free) λ k row e.
        ground (arith, eq_iff id k, find-upsert prisma k id (λ f. f) file db.files, free, all k row)
    | inr (old, taken) ↦ rw (create_taken (files prisma) id file db taken) all
  ]

  update-AreBounded :
      (id : String) (f : IpfsFile → IpfsFile)
      → ((file : IpfsFile) → IsBounded file → IsBounded (f file))
      → Keeps AreBounded (update (files prisma) id f)
  update-AreBounded id f keep db all = elim (Option-cases (prisma.find_unique id db.files)) [
    | inl missing ↦ rw (update_missing (files prisma) id f db missing) all
    | inr (old, found) ↦ rw (update_found (files prisma) id f db found) λ k row e. ground (
      arith,
      eq_iff id k,
      find-upsert prisma k id f old db.files,
      found,
      keep old (all id old found),
      all k row,
    )
  ]

  with_cid-IsBounded :
      (cid : String) (file : IpfsFile) → IsBounded file → IsBounded (with_cid cid file)
  with_cid-IsBounded cid file b = record {
    typed = b.typed;
    sized = b.sized;
    stamped = λ p. b.stamped p;
  }

  with_failed-IsBounded : (file : IpfsFile) → IsBounded file → IsBounded (with_failed file)
  with_failed-IsBounded file b = record { typed = b.typed; sized = b.sized; stamped = λ p. cc }

  with_pinned-IsBounded :
      (now : ℕ) (file : IpfsFile) → IsBounded file → IsBounded (with_pinned now file)
  with_pinned-IsBounded now file b = record {
    typed = b.typed;
    sized = b.sized;
    stamped = λ p q. cc;
  }

  with_webhook-IsBounded :
      (data_ : PinataStatus) (now : ℕ) (file : IpfsFile)
      → IsBounded file
      → IsBounded (with_webhook data_ now file)
  unfolding status_of
  with_webhook-IsBounded data_ now file b = record {
    typed = b.typed;
    sized = b.sized;
    stamped = λ p q. ground arith;
  }

  send-AreBounded :
      (answer : Option String) (id : String) → Keeps AreBounded (send prisma answer id)
  unfolding send
  send-AreBounded none id = λ db all. all
  send-AreBounded (some cid) id =
      bind-Keeps AreBounded (update (files prisma) id (with_cid cid))
        (λ file. pure (record { id = id; cid = cid; pin_status = pending }))
        (update-AreBounded id (with_cid cid) (with_cid-IsBounded cid)) (λ file db all. all)

  mark_failed-AreBounded : (id : String) (e : Error) → Keeps AreBounded (mark_failed prisma id e)
  unfolding mark_failed
  mark_failed-AreBounded id e =
      bind-Keeps AreBounded (update (files prisma) id with_failed)
        (λ file. throw (plain "Pinata upload failed"))
        (update-AreBounded id with_failed with_failed-IsBounded) (λ file db all. all)

  -- What an upload does once it is not refused.
  abbrev store : Option String → String → Upload → Action (Db prisma) UploadResult
  store answer id upload =
      create (files prisma) id (new_file upload)
      >> try_catch (send prisma answer id) (mark_failed prisma id)

  store-AreBounded :
      (answer : Option String) (id : String) (upload : Upload)
      → IsBounded (new_file upload)
      → Keeps AreBounded (store answer id upload)
  store-AreBounded answer id upload h =
      bind-Keeps AreBounded (create (files prisma) id (new_file upload))
        (λ _. try_catch (send prisma answer id) (mark_failed prisma id))
        (create-AreBounded id (new_file upload) h)
        (λ _.
          try_catch-Keeps AreBounded (send prisma answer id) (mark_failed prisma id)
            (send-AreBounded answer id) (mark_failed-AreBounded id))

  upload-AreBounded :
      (configured : Bool) (answer : Option String) (id : String) (upload : Upload)
      → Keeps AreBounded (upload_to_pinata prisma configured answer id upload)
  unfolding upload_to_pinata
  upload-AreBounded configured answer id upload db all =
      elim (Option-cases (refusal configured upload)) [
        | inl accepted ↦
            let same : upload_to_pinata prisma configured answer id upload db
                ≡ store answer id upload db =
              ground arith in
            rw same (
              store-AreBounded answer id upload
                (record { typed = ground arith; sized = ground arith; stamped = λ p. cc }) db all)
        | inr (e, refused) ↦
            let same : (upload_to_pinata prisma configured answer id upload db).1 ≡ db =
              ground arith in
            rw same all
      ]

  -- A pin that does not reach the update changes nothing.
  pin_file_cases :
      (configured pins : Bool) (id : String) (now : ℕ) (db : Db prisma)
      → ((e : Error) × (pin_file prisma configured pins id now db ≡ (err e, db)))
        ⊎ (pin_file prisma configured pins id now db
            ≡ update (files prisma) id (with_pinned now) db)
  unfolding pin_file
  pin_file_cases false pins id now db = inl (plain "Pinata API credentials not configured", refl)
  pin_file_cases true pins id now db = elim (Option-cases (prisma.find_unique id db.files)) [
    | inl missing ↦ inl (plain "File record not found or CID not available", ground arith)
    | inr (file, found) ↦ elim (Bool-cases (str_eq file.cid "")) [
      | inl none_yet ↦ inl (plain "File record not found or CID not available", ground arith)
      | inr named ↦ elim (Bool-cases pins) [
        | inl taken ↦ inr (ground arith)
        | inr refused ↦ inl (plain "request failed", ground arith)
      ]
    ]
  ]

  pin_file-AreBounded :
      (configured pins : Bool) (id : String) (now : ℕ)
      → Keeps AreBounded (pin_file prisma configured pins id now)
  pin_file-AreBounded configured pins id now db all =
      elim (pin_file_cases configured pins id now db) [
        | inl (e, stopped) ↦ rw stopped all
        | inr runs ↦
            rw runs (update-AreBounded id (with_pinned now) (with_pinned-IsBounded now) db all)
      ]

  pin_file_async-AreBounded :
      (configured pins : Bool) (id : String) (now : ℕ)
      → Keeps AreBounded (pin_file_async prisma configured pins id now)
  unfolding pin_file_async
  pin_file_async-AreBounded configured pins id now =
      try_catch-Keeps AreBounded (pin_file prisma configured pins id now)
        (λ e. update (files prisma) id with_failed) (pin_file-AreBounded configured pins id now)
        (λ e. update-AreBounded id with_failed with_failed-IsBounded)

  webhook-AreBounded :
      (data_ : PinataStatus) (now : ℕ) → Keeps AreBounded (pinata_webhook prisma data_ now)
  unfolding pinata_webhook handle_pinata_webhook
  webhook-AreBounded data_ now =
      try_catch-Keeps AreBounded (handle_pinata_webhook prisma data_ now) (as_internal prisma)
        handled (λ e db all. all)
    where
      handled : Keeps AreBounded (handle_pinata_webhook prisma data_ now)
      handled =
          bind-Keeps AreBounded (or_throw data_.id (plain "Webhook missing file ID"))
            (λ id. update (files prisma) id (with_webhook data_ now))
            (or_throw-Keeps AreBounded data_.id _)
            (λ id. update-AreBounded id (with_webhook data_ now) (with_webhook-IsBounded data_ now))

  -- The handlers of uploads, once their own checks have passed.
  abbrev served : Bool → Option String → String → Upload → Action (Db prisma) UploadResult
  served configured answer id upload =
      try_catch (upload_to_pinata prisma configured answer id upload) (as_internal prisma)

  served-AreBounded :
      (configured : Bool) (answer : Option String) (id : String) (upload : Upload)
      → Keeps AreBounded (served configured answer id upload)
  served-AreBounded configured answer id upload =
      try_catch-Keeps AreBounded (upload_to_pinata prisma configured answer id upload)
        (as_internal prisma) (upload-AreBounded configured answer id upload) (λ e db all. all)

  document-AreBounded :
      (configured : Bool) (answer : Option String) (id project_id : String) (file : Option Upload)
      → Keeps AreBounded (upload_project_document prisma configured answer id file project_id)
  unfolding upload_project_document
  document-AreBounded configured answer id project_id none = λ db all. all
  document-AreBounded configured answer id project_id (some upload) =
      let own = record upload { linked_entity_type = "project"; linked_entity_id = project_id } in
      guard-Keeps AreBounded (not (is_allowed upload.file_type)) (bad_request "Invalid file type") _
        (guard-Keeps AreBounded (ltb max_size upload.file_size)
          (bad_request "File size exceeds 50MB limit") (served configured answer id own)
          (served-AreBounded configured answer id own))

  certificate-AreBounded :
      (configured : Bool) (answer : Option String) (id retirement_id : String)
      (file : Option Upload)
      → Keeps AreBounded (upload_certificate prisma configured answer id file retirement_id)
  unfolding upload_certificate
  certificate-AreBounded configured answer id retirement_id none = λ db all. all
  certificate-AreBounded configured answer id retirement_id (some upload) =
      let own = record upload {
        linked_entity_type = "certificate";
        linked_entity_id = retirement_id;
      } in
      guard-Keeps AreBounded (not (str_eq upload.file_type "application/pdf"))
        (bad_request "Invalid file type") _
        (guard-Keeps AreBounded (ltb max_size upload.file_size)
          (bad_request "File size exceeds 50MB limit") (served configured answer id own)
          (served-AreBounded configured answer id own))

-- What is called of the uploads: the handlers, and the pin that an upload starts.
pub data Call : Type 0 where
  document certificate : Bool → Option String → String → Option Upload → String → Call
  pin : Bool → Bool → String → ℕ → Call
  webhook : PinataStatus → ℕ → Call

module _ (prisma : Prisma) where
  unfoldable pub call : Call → Db prisma → Db prisma
  call (document configured answer id file project_id) db =
      (upload_project_document prisma configured answer id file project_id db).1
  call (certificate configured answer id file retirement_id) db =
      (upload_certificate prisma configured answer id file retirement_id db).1
  call (pin configured pins id now) db = (pin_file_async prisma configured pins id now db).1
  call (webhook data_ now) db = (pinata_webhook prisma data_ now db).1

  unfoldable pub calls : List Call → Db prisma → Db prisma
  unfolding call
  calls [] db = db
  calls (c ∷ cs) db = calls cs (call c db)

  call-AreBounded :
      (c : Call) (db : Db prisma) → AreBounded prisma db → AreBounded prisma (call c db)
  unfolding call
  call-AreBounded (document configured answer id file project_id) =
      document-AreBounded prisma configured answer id project_id file
  call-AreBounded (certificate configured answer id file retirement_id) =
      certificate-AreBounded prisma configured answer id retirement_id file
  call-AreBounded (pin configured pins id now) =
      pin_file_async-AreBounded prisma configured pins id now
  call-AreBounded (webhook data_ now) = webhook-AreBounded prisma data_ now

  -- Whatever is called, in whatever order and with whatever answers of Pinata, every file has an
  -- allowed type, 50 MB at most, and a time of pinning if it is pinned.
  pub calls-AreBounded :
      (cs : List Call) (db : Db prisma) → AreBounded prisma db → AreBounded prisma (calls cs db)
  unfolding calls
  calls-AreBounded [] db all = all
  calls-AreBounded (c ∷ cs) db all = calls-AreBounded cs (call c db) (call-AreBounded c db all)
