-- ===== src/Verifiers/Promotion.antt =====
-- backend/src/verifiers/verifiers.service.ts: what a decision does to the role of a user.
use carbonledger.Base.{String, true, Option, none, some, ◌≡◌, refl, eq_iff, arith, Option-cases}
use carbonledger.Prisma.{Prisma, upserted}
use carbonledger.Schema.{
  VerifierApplication, ApplicationStatus, pending, approved, rejected, User, Role, verifier, Db,
}
use carbonledger.Action.{ok}
use carbonledger.Tables.{upsert}
use carbonledger.Tables.Laws.{find-upsert}
use carbonledger.Auth.Service.{new_user}
use carbonledger.Verifiers.Service.{
  ApplyVerifierDto, Decision, approve, reject, new_application, reapply, is_pending, status_of,
  with_role, add_verifier, promote,
}

pub is_pending_lem : (s : ApplicationStatus) → is_pending s ≡ true → s ≡ pending
is_pending_lem pending h = refl
is_pending_lem approved h = cc
is_pending_lem rejected h = cc
is_pending_lem (ApplicationStatus.other _) h = cc

pub pending_again :
    (dto : ApplyVerifierDto) (o : Option VerifierApplication)
    → (upserted o (reapply dto) (new_application dto)).status ≡ pending
pending_again dto none = refl
pending_again dto (some row) = refl

abbrev pub role_of : Option User → Option Role
role_of none = none
role_of (some user) = some user.role

module _ (prisma : Prisma) where
  pub promote_ok : (d : Decision) (k : String) (db : Db prisma) → (promote prisma d k db).0 ≡ ok tt
  unfolding promote add_verifier upsert
  promote_ok approve k db = refl
  promote_ok reject k db = refl

  pub promote-applications :
      (d : Decision) (k : String) (db : Db prisma)
      → (promote prisma d k db).1.applications ≡ db.applications
  unfolding promote add_verifier upsert
  promote-applications approve k db = refl
  promote-applications reject k db = refl

  -- No decision takes the role of a verifier away.
  pub promote-keeps :
      (d : Decision) (k j : String) (db : Db prisma)
      → role_of (prisma.find_unique j db.users) ≡ some verifier
      → role_of (prisma.find_unique j (promote prisma d k db).1.users) ≡ some verifier
  unfolding promote add_verifier upsert
  promote-keeps approve k j db h = ground (
    arith,
    eq_iff k j,
    find-upsert prisma j k (with_role verifier) (new_user k verifier) db.users,
    Option-cases (prisma.find_unique j db.users),
  )
  promote-keeps reject k j db h = h

  pub approved-promotes :
      (d : Decision) (k : String) (db : Db prisma)
      → status_of d ≡ approved
      → role_of (prisma.find_unique k (promote prisma d k db).1.users) ≡ some verifier
  unfolding promote add_verifier upsert
  approved-promotes approve k db h = ground (
    arith,
    eq_iff k k,
    prisma.find-upsert_self k (with_role verifier) (new_user k verifier) db.users,
    Option-cases (prisma.find_unique k db.users),
  )
  approved-promotes reject k db h = cc
