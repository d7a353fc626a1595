-- ===== src/Auth/Guards.antt =====
-- backend/src/auth/roles.guard.ts, backend/src/public-api/api-key.guard.ts and
-- backend/src/oracle/oracle.guard.ts: who may call a route.
use carbonledger.Base.{
  ℕ, ◌-◌, String, Bool, true, false, ◌||◌, Option, none, some, List, [], ◌∷◌, ltb, str_eq,
  if◌then◌else◌,
}
use Prim.Native.String
use carbonledger.Prisma.{Prisma}
use carbonledger.Schema.{User, Role, admin, verifier, project_developer, corporation}
use carbonledger.Action.{Result, ok, err, forbidden, unauthorized}
use carbonledger.Auth.Service.{Claims}

abbrev pub same_role : Role → Role → Bool
same_role admin admin = true
same_role verifier verifier = true
same_role project_developer project_developer = true
same_role corporation corporation = true
same_role (Role.other a) (Role.other b) = str_eq a b
same_role _ _ = false

abbrev pub has_role : List Role → Role → Bool
has_role [] role = false
has_role (r ∷ rs) role = same_role r role || has_role rs role

-- What the guard reads of a request: the route's marks, and the bearer token as the token library
-- decodes it: no header, a token that it refuses, or one with claims.
pub data Bearer : Type 0 where
  no_token bad_token : Bearer
  claims : Claims → Bearer

pub record Route : Type 0 where
  pub is_public : Bool
  pub required_roles : List Role

-- `request.user`, which is set for the handler.
pub record Caller : Type 0 where
  pub public_key : String
  pub role : Role

-- Step 4 of the guard.
abbrev pub check_roles : List Role → User → Result (Option Caller)
check_roles [] user = ok (some (record { public_key = user.public_key; role = user.role }))
check_roles (r ∷ rs) user =
    if has_role (r ∷ rs) user.role
    then ok (some (record { public_key = user.public_key; role = user.role }))
    else err (forbidden "Insufficient permissions")

module _ (prisma : Prisma) where
  -- The caller that is attached to the request, none on a public route.
  unfoldable pub roles_guard : Route → Bearer → prisma.Rows User → Result (Option Caller)
  roles_guard route bearer users = if route.is_public then ok none else elim bearer [
    | no_token ↦ err (forbidden "Authentication required")
    | bad_token ↦ err (forbidden "Invalid or expired token")
    | claims payload ↦
        if str_eq payload.type "access"
        then elim (prisma.find_unique {V = User} payload.sub users) [
          | none ↦ err (forbidden "User not found")
          | some user ↦ check_roles route.required_roles user
        ]
        else err (forbidden "Invalid token type")
  ]

  -- `ApiKeyGuard`: the column that decides is `isActive`.
  unfoldable pub api_key_guard : String → prisma.Rows Bool → Result (Unit {0})
  api_key_guard key keys =
      if str_eq key ""
      then err (unauthorized "API key required")
      else elim (prisma.find_unique {V = Bool} key keys) [
        | none ↦ err (unauthorized "Invalid or inactive API key")
        | some is_active ↦
            if is_active then ok tt else err (unauthorized "Invalid or inactive API key")
      ]

-- The headers of an oracle's request; `timestamp_ms` is `Number(timestamp)`, none if it is NaN.
pub record OracleRequest : Type 0 where
  pub signature : String
  pub timestamp : String
  pub timestamp_ms : Option ℕ
  pub raw_body : String

abbrev pub max_skew_ms : ℕ
max_skew_ms = 300_000

-- `isNaN(ts) || Math.abs(Date.now() - ts) > 5 * 60 * 1000`
abbrev pub is_stale : ℕ → Option ℕ → Bool
is_stale now none = true
is_stale now (some ts) = ltb max_skew_ms (now - ts) || ltb max_skew_ms (ts - now)

-- `oracle:${timestamp}:${sha256(body)}`
abbrev pub oracle_message : (String → String) → OracleRequest → String
oracle_message sha256 req =
    String.◌++◌ "oracle:" (String.◌++◌ req.timestamp (String.◌++◌ ":" (sha256 req.raw_body)))

-- `sha256` and `verify` are the libraries'.
module _ (sha256 : String → String) (verify : String → String → String → Bool) where
  unfoldable pub oracle_guard : String → OracleRequest → ℕ → Result (Unit {0})
  oracle_guard oracle_public_key req now =
      if str_eq oracle_public_key ""
      then err (forbidden "Oracle public key not configured")
      else if str_eq req.signature "" || str_eq req.timestamp ""
      then err (forbidden "Missing oracle authentication headers")
      else if is_stale now req.timestamp_ms
      then err (forbidden "Oracle request timestamp expired")
      else if verify oracle_public_key (oracle_message sha256 req) req.signature
      then ok tt
      else err (forbidden "Invalid oracle signature")
