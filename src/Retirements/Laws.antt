-- ===== src/Retirements/Laws.antt =====
-- backend/src/retirements: one record and one job for each retirement, a job that is lost, and the
-- outcome of a check.
use carbonledger.Base.{
  ℕ, String, Bool, true, false, none, some, List, [], ◌∷◌, ◌++◌, ◌≡◌, refl, inl, inr, if◌then◌else◌,
  arith, Bool-cases, ◌<◌, length,
}
use carbonledger.Base.Digits.{texts_eq}
use carbonledger.Prisma.{Prisma}
use carbonledger.Schema.{RetirementRecord, Db}
use carbonledger.Action.{ok, err, service_unavailable}
use carbonledger.Tables.{retirements}
use carbonledger.Tables.Laws.{create_free, update_found}
use carbonledger.Credits.Service.{get_retirement}
use carbonledger.Retirements.Service.{
  RetirementEvent, new_record, lower, verify_cid_match, enqueue_certificate, index_new,
  index_retirement, check_cid, rethrow, verify_certificate_integrity,
}

module _ (prisma : Prisma) where
  -- A retirement that is not recorded yet is recorded as the event says and gets a job, if the
  -- queue takes it; to index it again then changes nothing.
  pub index_retirement_once :
      (event : RetirementEvent) (enqueued : Bool) (db : Db prisma)
      → prisma.find_unique event.retirement_id db.retirements ≡ none
      → let (result, db') = index_retirement prisma true event db in
        (result ≡ ok tt)
        × (prisma.find_unique event.retirement_id db'.retirements ≡ some (new_record event))
        × (db'.certificate_jobs ≡ db.certificate_jobs ++ event.retirement_id ∷ [])
        × (index_retirement prisma enqueued event db' ≡ (ok tt, db'))
  unfolding index_retirement index_new enqueue_certificate
  index_retirement_once event enqueued db fresh =
      let made = create_free (retirements prisma) event.retirement_id (new_record event) db fresh in
      let row =
        prisma.find-upsert_self event.retirement_id (λ r. r) (new_record event) db.retirements in
      (
        ground (arith, made),
        ground (arith, made, row),
        ground (arith, made),
        ground (arith, made, row),
      )

  -- Where the queue refuses the job of a retirement that is not recorded yet, the record stays, and
  -- no later attempt adds the job.
  pub refused_job_is_lost :
      (event : RetirementEvent) (enqueued : Bool) (db : Db prisma)
      → prisma.find_unique event.retirement_id db.retirements ≡ none
      → let (result, db') = index_retirement prisma false event db in
        (result ≡ err service_unavailable)
        × (prisma.find_unique event.retirement_id db'.retirements ≡ some (new_record event))
        × (db'.certificate_jobs ≡ db.certificate_jobs)
        × (index_retirement prisma enqueued event db' ≡ (ok tt, db'))
  unfolding index_retirement index_new enqueue_certificate
  refused_job_is_lost event enqueued db fresh =
      let made = create_free (retirements prisma) event.retirement_id (new_record event) db fresh in
      let row =
        prisma.find-upsert_self event.retirement_id (λ r. r) (new_record event) db.retirements in
      (
        ground (arith, made),
        ground (arith, made, row),
        ground (arith, made),
        ground (arith, made, row),
      )

lower-length : (s : List ℕ) → length (lower s) ≡ length s
lower-length [] = refl
lower-length (c ∷ s) = omega (arith, lower-length s)

texts_eq-length : (s t : List ℕ) → texts_eq s t ≡ true → length s ≡ length t
texts_eq-length [] [] h = refl
texts_eq-length [] (d ∷ t) h = cc
texts_eq-length (c ∷ s) [] h = cc
texts_eq-length (c ∷ s) (d ∷ t) h = ground (arith, texts_eq-length s t)

module _ (prisma : Prisma) (sha256_hex : String → List ℕ) (codes : String → List ℕ) where
  pub verify_certificate_sound :
      (id content cid : String) (r : RetirementRecord) (db : Db prisma)
      → prisma.find_unique id db.retirements ≡ some r
      → r.certificate_cid ≡ some cid
      → let matches = verify_cid_match prisma sha256_hex codes content cid in
        let (result, db') = verify_certificate_integrity prisma sha256_hex codes id content db in
        (result ≡ ok (record { valid = matches; stored_cid = cid }))
        × (prisma.find_unique id db'.retirements
            ≡ some (if matches then r else record r { is_valid = false }))
  unfolding verify_certificate_integrity check_cid rethrow get_retirement
  verify_certificate_sound id content cid r db found has_cid =
      let kept = update_found (retirements prisma) id (λ row. row) db found in
      let kept_row = prisma.find-upsert_self id (λ row. row) r db.retirements in
      let marked =
        update_found (retirements prisma) id (λ row. record row { is_valid = false }) db found in
      let marked_row =
        prisma.find-upsert_self id (λ row. record row { is_valid = false }) r db.retirements in
      elim (Bool-cases (verify_cid_match prisma sha256_hex codes content cid)) [
        | inl matches ↦ (ground (arith, kept), ground (arith, kept, kept_row))
        | inr differs ↦ (ground (arith, marked), ground (arith, marked, marked_row))
      ]

  unmatched :
      (content cid : String)
      → length (sha256_hex content) ≡ 64
      → length (codes cid) < 64
      → verify_cid_match prisma sha256_hex codes content cid ≡ false
  unfolding verify_cid_match
  unmatched content cid long short = ground (
    arith,
    texts_eq-length (lower (codes cid)) (lower (sha256_hex content)),
    lower-length (codes cid),
    lower-length (sha256_hex content),
  )

  -- A certificate whose stored identifier is shorter than the 64 characters of a hash, as those of
  -- the pinning service are, is answered to be tampered with, whatever its content, and its record
  -- is marked as invalid.
  pub pinned_certificate_fails :
      (id content cid : String) (r : RetirementRecord) (db : Db prisma)
      → length (sha256_hex content) ≡ 64
      → length (codes cid) < 64
      → prisma.find_unique id db.retirements ≡ some r
      → r.certificate_cid ≡ some cid
      → let (result, db') = verify_certificate_integrity prisma sha256_hex codes id content db in
        (result ≡ ok (record { valid = false; stored_cid = cid }))
        × (prisma.find_unique id db'.retirements ≡ some (record r { is_valid = false }))
  pinned_certificate_fails id content cid r db long short found has_cid =
      let differs : verify_cid_match prisma sha256_hex codes content cid ≡ false =
        unmatched content cid long short in
      let (answer, row) = verify_certificate_sound id content cid r db found has_cid in
      (ground (arith, differs, answer), ground (arith, differs, row))
