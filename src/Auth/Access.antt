-- ===== src/Auth/Access.antt =====
-- Who passes the guards.
use carbonledger.Base.{
  ℕ, ◌+◌, ◌≤◌, String, ◌≡◌, refl, ◌≢◌, ◌↔◌, ◌⊎◌, inl, inr, Bool, true, false, Option, some, List,
  [], ◌∷◌, arith, eq_iff, Option-cases, Bool-cases,
}
use carbonledger.Prisma.{Prisma}
use carbonledger.Schema.{User, Role, admin, verifier, project_developer, corporation}
use carbonledger.Action.{ok}
use carbonledger.Auth.Service.{Claims}
use carbonledger.Auth.Guards.{
  same_role, has_role, Bearer, claims, no_token, bad_token, Route, Caller, check_roles, roles_guard,
  OracleRequest, oracle_guard, oracle_message,
}

abbrev pub IsOneOf : Role → List Role → Type 0
IsOneOf role [] = ⊥
IsOneOf role (r ∷ rs) = (r ≡ role) ⊎ IsOneOf role rs

same_role_sound : (r s : Role) → same_role r s ≡ true → r ≡ s
same_role_sound admin admin h = refl
same_role_sound verifier verifier h = refl
same_role_sound project_developer project_developer h = refl
same_role_sound corporation corporation h = refl
same_role_sound (Role.other a) (Role.other b) h = ground (arith, eq_iff a b)
same_role_sound _ _ h = cc

has_role_sound : (rs : List Role) (role : Role) → has_role rs role ≡ true → IsOneOf role rs
has_role_sound [] role h = cc
has_role_sound (r ∷ rs) role h = elim (Bool-cases (same_role r role)) [
  | inl same ↦ inl (same_role_sound r role same)
  | inr differ ↦ inr (has_role_sound rs role (ground arith))
]

check_roles_sound :
    (rs : List Role) (user : User) {caller : Option Caller}
    → check_roles rs user ≡ ok caller
    → (caller ≡ some (record { public_key = user.public_key; role = user.role }))
      × ((rs ≡ []) ⊎ IsOneOf user.role rs)
check_roles_sound [] user e = (ground arith, inl refl)
check_roles_sound (r ∷ rs) user e = elim (Bool-cases (has_role (r ∷ rs) user.role)) [
  | inl allowed ↦ (ground arith, inr (has_role_sound (r ∷ rs) user.role allowed))
  | inr refused ↦ absurd (ground arith)
]

module _ (prisma : Prisma) where
  -- Past the guard of a route that is not public stands an access token of a stored user, whose role
  -- is read from the database and is one that the route asks for, if it asks for any.
  pub roles_guard_sound :
      (route : Route) (bearer : Bearer) (users : prisma.Rows User) {caller : Option Caller}
      → route.is_public ≡ false
      → roles_guard prisma route bearer users ≡ ok caller
      → (payload : Claims) × (user : User) × (bearer ≡ claims payload)
        × (payload.type ≡ "access")
        × (prisma.find_unique payload.sub users ≡ some user)
        × (caller ≡ some (record { public_key = user.public_key; role = user.role }))
        × ((route.required_roles ≡ []) ⊎ IsOneOf user.role route.required_roles)
  unfolding roles_guard
  roles_guard_sound route no_token users private e = absurd (ground arith)
  roles_guard_sound route bad_token users private e = absurd (ground arith)
  roles_guard_sound route (claims payload) users {caller} private e =
      elim (Option-cases (prisma.find_unique {V = User} payload.sub users)) [
        | inl missing ↦ absurd (ground arith)
        | inr (user, found) ↦
            let (same, allowed) =
              check_roles_sound route.required_roles user {caller = caller} (ground arith) in
            (
              payload,
              user,
              refl,
              ground (arith, eq_iff payload.type "access"),
              found,
              same,
              allowed,
            )
      ]

-- An oracle request passes exactly with a configured key, both headers, a clock reading within five
-- minutes, and a signature by that key of the time and the digest of the body.
pub oracle_guard_iff :
    (sha256 : String → String) (verify : String → String → String → Bool) (key : String)
    (req : OracleRequest) (now : ℕ)
    → (oracle_guard sha256 verify key req now ≡ ok tt) ↔ (
        (key ≢ "")
        × (req.signature ≢ "")
        × (req.timestamp ≢ "")
        × ((ts : ℕ) × (req.timestamp_ms ≡ some ts) × (now ≤ ts + 300000) × (ts ≤ now + 300000))
        × (verify key (oracle_message sha256 req) req.signature ≡ true))
unfolding oracle_guard
oracle_guard_iff sha256 verify key req now = elim (Option-cases req.timestamp_ms) [
  | inl missing ↦ (λ e. absurd (ground arith), λ h. absurd (ground arith))
  | inr (ts, given) ↦ (
    λ e. (
      ground (arith, eq_iff key ""),
      ground (arith, eq_iff req.signature ""),
      ground (arith, eq_iff req.timestamp ""),
      (ts, given, ground arith, ground arith),
      ground arith,
    ),
    λ h. ground (arith, eq_iff key "", eq_iff req.signature "", eq_iff req.timestamp ""),
  )
]
