-- ===== src/Verifiers/Whitelist.antt =====
-- backend/src/verifiers/verifiers.service.ts: approved applications and the roles of users.
use carbonledger.Base.{ℕ, String, some, ◌≡◌, ◌⊎◌, inl, inr, eq_iff, arith, Option-cases, Bool-cases}
use carbonledger.Prisma.{Prisma, upserted}
use carbonledger.Schema.{VerifierApplication, pending, approved, rejected, verifier, Db}
use carbonledger.Action.{Error, ok, err, bad_request, not_found}
use carbonledger.Tables.{applications, upsert}
use carbonledger.Tables.Laws.{update_found, find-upsert}
use carbonledger.Verifiers.Promotion.{
  role_of, is_pending_lem, pending_again, promote_ok, promote-applications, promote-keeps,
  approved-promotes,
}
use carbonledger.Verifiers.Service.{
  ApplyVerifierDto, ReviewVerifierDto, reject, new_application, reapply, is_pending, reviewed,
  apply_, promote, review,
}

module _ (prisma : Prisma) where
  -- An application stands under the key of its user, and if it is approved its user is a verifier.
  pub record IsWhitelisted (db : Db prisma) : Type 0 where
    pub keyed :
        (k : String) (app : VerifierApplication)
        → prisma.find_unique k db.applications ≡ some app
        → app.public_key ≡ k
    pub promoted :
        (k : String) (app : VerifierApplication)
        → prisma.find_unique k db.applications ≡ some app
        → app.status ≡ approved
        → role_of (prisma.find_unique k db.users) ≡ some verifier

  -- A review of a pending application: the application with the decision, and the user promoted if
  -- it is an approval.
  abbrev pub after_review :
      String → ReviewVerifierDto → ℕ → VerifierApplication → Db prisma → Db prisma
  after_review id dto now app db =
      let t = record db {
        applications = prisma.upsert id (reviewed dto now) app db.applications;
      } in
      (promote prisma dto.decision app.public_key t).1

  pub review_pending :
      (id : String) (dto : ReviewVerifierDto) (now : ℕ) (app : VerifierApplication) (db : Db prisma)
      → prisma.find_unique id db.applications ≡ some app
      → app.status ≡ pending
      → review prisma id dto now db ≡ (ok (reviewed dto now app), after_review id dto now app db)
  unfolding review
  review_pending id dto now app db found open_ = ground (
    arith,
    update_found (applications prisma) id (reviewed dto now) db found,
    promote_ok prisma dto.decision app.public_key
        (record db { applications = prisma.upsert id (reviewed dto now) app db.applications }),
  )

  pub review_refused :
      (id : String) (dto : ReviewVerifierDto) (now : ℕ) (db : Db prisma)
      → ((app : VerifierApplication) × (prisma.find_unique id db.applications ≡ some app)
          × (app.status ≡ pending))
        ⊎ ((e : Error) × (review prisma id dto now db ≡ (err e, db)))
  unfolding review
  review_refused id dto now db = elim (Option-cases (prisma.find_unique id db.applications)) [
    | inl missing ↦ inr (not_found "Application not found", ground arith)
    | inr (app, found) ↦ elim (Bool-cases (is_pending app.status)) [
      | inl open_ ↦ inl (app, found, is_pending_lem app.status open_)
      | inr closed ↦ inr (bad_request "Application already reviewed", ground arith)
    ]
  ]

  pub apply-IsWhitelisted :
      (dto : ApplyVerifierDto) (db : Db prisma)
      → IsWhitelisted db
      → IsWhitelisted (apply_ prisma dto db).1
  unfolding apply_ upsert
  apply-IsWhitelisted dto db w = record {
    keyed = λ k app e. ground (
      arith,
      eq_iff dto.public_key k,
      find-upsert prisma k dto.public_key (reapply dto) (new_application dto) db.applications,
      Option-cases (prisma.find_unique dto.public_key db.applications),
      w.keyed k app,
    );
    promoted = λ k app e a. ground (
      arith,
      eq_iff dto.public_key k,
      find-upsert prisma k dto.public_key (reapply dto) (new_application dto) db.applications,
      Option-cases (prisma.find_unique dto.public_key db.applications),
      w.promoted k app,
    );
  }

  after_review-IsWhitelisted :
      (id : String) (dto : ReviewVerifierDto) (now : ℕ) (app : VerifierApplication) (db : Db prisma)
      → prisma.find_unique id db.applications ≡ some app
      → IsWhitelisted db
      → IsWhitelisted (after_review id dto now app db)
  after_review-IsWhitelisted id dto now app db found w =
      let t = record db {
        applications = prisma.upsert id (reviewed dto now) app db.applications;
      } in
      let rows = promote-applications prisma dto.decision app.public_key t in
      record {
        keyed = λ k row e. ground (
          arith,
          eq_iff id k,
          rows,
          find-upsert prisma k id (reviewed dto now) app db.applications,
          found,
          w.keyed id app found,
          w.keyed k row,
        );
        promoted = λ k row e a. ground (
          arith,
          eq_iff id k,
          rows,
          find-upsert prisma k id (reviewed dto now) app db.applications,
          found,
          w.keyed id app found,
          approved-promotes prisma dto.decision app.public_key t,
          w.promoted k row,
          promote-keeps prisma dto.decision app.public_key k t,
        );
      }

  pub review-IsWhitelisted :
      (id : String) (dto : ReviewVerifierDto) (now : ℕ) (db : Db prisma)
      → IsWhitelisted db
      → IsWhitelisted (review prisma id dto now db).1
  review-IsWhitelisted id dto now db w = elim (review_refused id dto now db) [
    | inl (app, found, open_) ↦
        rw (review_pending id dto now app db found open_)
          (after_review-IsWhitelisted id dto now app db found w)
    | inr (e, refused) ↦ rw refused w
  ]

  -- A request to the verifiers service.
  pub data Request : Type 0 where
    application : ApplyVerifierDto → Request
    decision : String → ReviewVerifierDto → ℕ → Request

  unfoldable pub handle : Request → Db prisma → Db prisma
  handle (application dto) db = (apply_ prisma dto db).1
  handle (decision id dto now) db = (review prisma id dto now db).1

  -- A request to the verifiers service, whether it throws or not, keeps each application under the
  -- key of its user, and the user of each approved application a verifier.
  pub handle-IsWhitelisted :
      (request : Request) (db : Db prisma) → IsWhitelisted db → IsWhitelisted (handle request db)
  unfolding handle
  handle-IsWhitelisted (application dto) db w = apply-IsWhitelisted dto db w
  handle-IsWhitelisted (decision id dto now) db w = review-IsWhitelisted id dto now db w

  -- A verifier who applies again and is rejected stays a verifier.
  pub rejection_keeps_role :
      (dto : ApplyVerifierDto) (decision_ : ReviewVerifierDto) (now : ℕ) (db : Db prisma)
      → decision_.decision ≡ reject
      → role_of (prisma.find_unique dto.public_key db.users) ≡ some verifier
      → let again = (apply_ prisma dto db).1 in
        let outcome = (review prisma dto.public_key decision_ now again).1 in
        ((app : VerifierApplication) × (prisma.find_unique dto.public_key outcome.applications
            ≡ some app)
          × (app.status ≡ rejected))
        × (role_of (prisma.find_unique dto.public_key outcome.users) ≡ some verifier)
  unfolding apply_ upsert
  rejection_keeps_role dto decision_ now db rejects role =
      let row =
        upserted (prisma.find_unique dto.public_key db.applications) (reapply dto)
          (new_application dto) in
      let again = (apply_ prisma dto db).1 in
      let stored =
        prisma.find-upsert_self dto.public_key (reapply dto) (new_application dto)
          db.applications in
      let reviewed_ =
        review_pending dto.public_key decision_ now row again stored
          (pending_again dto (prisma.find_unique dto.public_key db.applications)) in
      let t = record again {
        applications = prisma.upsert dto.public_key (reviewed decision_ now) row again.applications;
      } in
      let rows = promote-applications prisma decision_.decision row.public_key t in
      let marked =
        prisma.find-upsert_self dto.public_key (reviewed decision_ now) row again.applications in
      (
        (reviewed decision_ now row, ground (arith, reviewed_, rows, marked, stored), ground arith),
        ground (
          arith,
          reviewed_,
          promote-keeps prisma decision_.decision row.public_key dto.public_key t role,
        ),
      )
