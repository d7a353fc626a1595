-- ===== src/Auth/Service.antt =====
-- backend/src/auth/auth.service.ts. Stellar keys, token signing and verification are the libraries':
-- their answers are arguments.
use carbonledger.Base.{
  ℕ, ◌+◌, String, Bool, true, false, not, Option, none, some, ltb, str_eq, if◌then◌else◌,
}
use Prim.Native.String
use carbonledger.Prisma.{Prisma}
use carbonledger.Schema.{User, Role, Db}
use carbonledger.Action.{
  Action, ok, err, ◌>>=◌, ◌>>◌, pure, throw_if, or_throw, gets, modify, bad_request, unauthorized,
}
use carbonledger.Tables.{users, find_unique, upsert}

-- An entry of `nonceStore`.
pub record Challenge : Type 0 where
  pub nonce : String
  pub expires_at : ℕ

-- The service's state: the database, and the in-memory store of nonces.
pub record AuthState (prisma : Prisma) : Type 0 where
  pub db : Db prisma
  pub nonce_store : String → Option Challenge

-- The claims that are signed into a token.
pub record Claims : Type 0 where
  pub sub : String
  pub role : Role
  pub type : String

pub record TokenPair : Type 0 where
  pub access_token : Claims
  pub refresh_token : Claims

-- What the service takes from the libraries: whether a text is a Stellar public key, and whether a
-- signature by a key fits a message.
pub record Stellar : Type 0 where
  pub is_public_key : String → Bool
  pub verify : String → String → String → Bool

abbrev pub nonce_ttl_ms : ℕ
nonce_ttl_ms = 300_000

-- `nonceStore.set(publicKey, …)` and `nonceStore.delete(publicKey)`
abbrev pub store_nonce :
    {prisma : Prisma} → String → Option Challenge → Action (AuthState prisma) (Unit {0})
store_nonce key entry =
    modify (λ s. record s { nonce_store = λ k. if str_eq k key then entry else s.nonce_store k })

-- `!stored || stored.nonce !== nonce`
abbrev pub is_other_nonce : Option Challenge → String → Bool
is_other_nonce none nonce = true
is_other_nonce (some stored) nonce = not (str_eq stored.nonce nonce)

abbrev pub expiry : Option Challenge → ℕ
expiry none = 0
expiry (some stored) = stored.expires_at

abbrev pub new_user : String → Role → User
new_user public_key role = record {
  public_key = public_key;
  email = none;
  role = role;
  is_subscribed = true;
  notification_preferences = none;
}

-- `carbonledger:${nonce}`
abbrev pub message_of : String → String
message_of nonce = String.◌++◌ "carbonledger:" nonce

unfoldable pub issue_token_pair : String → Role → TokenPair
issue_token_pair public_key role = record {
  access_token = record { sub = public_key; role = role; type = "access" };
  refresh_token = record { sub = public_key; role = role; type = "refresh" };
}

module _ (prisma : Prisma) (stellar : Stellar) where
  unfoldable pub validate_public_key : String → Action (AuthState prisma) (Unit {0})
  validate_public_key public_key =
      throw_if (not (stellar.is_public_key public_key)) (bad_request "Invalid Stellar public key")

  -- `nonce` is the random text, `now` the clock.
  unfoldable pub generate_challenge : String → String → ℕ → Action (AuthState prisma) Challenge
  unfolding validate_public_key
  generate_challenge public_key nonce now = do
    validate_public_key public_key
    let challenge : Challenge = record { nonce = nonce; expires_at = now + nonce_ttl_ms }
    store_nonce public_key (some challenge)
    pure challenge

  -- Upsert, then the tokens for the row as it is stored.
  unfoldable pub find_or_create_user : String → Role → Action (AuthState prisma) TokenPair
  unfolding upsert find_unique issue_token_pair
  find_or_create_user public_key role s =
      let db =
        (upsert (users prisma) public_key (λ user. user) (new_user public_key role) s.db).1 in
      (
        elim (prisma.find_unique public_key db.users) [
          | none ↦ err (unauthorized "User not found")
          | some user ↦ ok (issue_token_pair user.public_key user.role)
        ],
        record s { db = db },
      )

  unfoldable pub verify_signature_and_login :
      String → String → String → Role → ℕ → Action (AuthState prisma) TokenPair
  unfolding validate_public_key find_or_create_user
  verify_signature_and_login public_key signature nonce role now = do
    validate_public_key public_key
    stored ← gets (λ s. s.nonce_store public_key)
    throw_if (is_other_nonce stored nonce) (unauthorized "Invalid or expired challenge")
    elim (ltb (expiry stored) now) [
      | true ↦ store_nonce public_key none >> throw_if true (unauthorized "Challenge expired")
      | false ↦ store_nonce public_key none
    ]
    throw_if (not (stellar.verify public_key (message_of nonce) signature))
        (unauthorized "Signature verification failed")
    find_or_create_user public_key role

  -- `payload` is what the token library reads from the refresh token, if it accepts it.
  unfoldable pub refresh : Option Claims → Action (AuthState prisma) TokenPair
  unfolding find_unique issue_token_pair
  refresh payload = do
    claims ← or_throw payload (unauthorized "Invalid refresh token")
    throw_if (not (str_eq claims.type "refresh")) (unauthorized "Not a refresh token")
    found ← gets (λ s. prisma.find_unique claims.sub s.db.users)
    user ← or_throw found (unauthorized "User not found")
    pure (issue_token_pair user.public_key user.role)
