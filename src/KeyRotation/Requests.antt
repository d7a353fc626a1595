-- ===== src/KeyRotation/Requests.antt =====
-- backend/src/key-rotation/key-rotation.service.ts: requests, dates and records, and the stand-in
-- for the keys of the network.
use carbonledger.Base.{
  ℕ, ◌+◌, ◌*◌, String, Bool, true, false, Option, none, some, List, [], ◌∷◌, ◌++◌, leb, ◌==◌,
  if◌then◌else◌, take,
}
use carbonledger.Action.{Action, ok, err, Error}
use carbonledger.KeyRotation.Store.{
  Rotation, RotationType, oracle, admin, jwt, RotationState, Value, text, number, flag, undefined,
  Metadata,
}

pub record OracleRotationRequest : Type 0 where
  pub new_oracle_public_key : List ℕ
  pub new_oracle_secret_key : List ℕ
  pub reason : List ℕ
  pub scheduled_at : Option ℕ

pub record AdminRotationRequest : Type 0 where
  pub new_admin_public_key : List ℕ
  pub new_admin_secret_key : List ℕ
  pub reason : List ℕ
  pub multi_sig_required : Bool
  pub time_lock_hours : Option ℕ

pub record JwtRotationRequest : Type 0 where
  pub new_jwt_secret : List ℕ
  pub reason : List ℕ
  pub transition_period_hours : Option ℕ

-- The settings that the service reads.
pub record Config : Type 0 where
  pub oracle_public_key : Value
  pub admin_public_key : Value
  pub jwt_secret : List ℕ

-- The service's world: its table, the keys that it has asked the contract to install, and the
-- timers that will finalize a rotation.
pub record World (S : Type 0) : Type 0 where
  pub table : S
  pub rotate_calls : List Value
  pub timers : List (ℕ × String)

-- 'mock-public-key-'
abbrev pub mock_prefix : List ℕ
mock_prefix =
    b'm' ∷ b'o' ∷ b'c' ∷ b'k' ∷ b'-' ∷ b'p' ∷ b'u' ∷ b'b' ∷ b'l' ∷ b'i' ∷ b'c' ∷ b'-' ∷ b'k' ∷ b'e'
    ∷ b'y' ∷ b'-' ∷ []

-- `StellarSDK.Keypair.fromSecret(secret).publicKey()`
abbrev pub public_key_of : List ℕ → List ℕ
public_key_of secret = mock_prefix ++ take 8 secret

-- 'dummy-hash'
abbrev pub dummy_hash : List ℕ
dummy_hash = b'd' ∷ b'u' ∷ b'm' ∷ b'm' ∷ b'y' ∷ b'-' ∷ b'h' ∷ b'a' ∷ b's' ∷ b'h' ∷ []

abbrev pub hours : ℕ → ℕ
hours n = n * 3600000

-- `!scheduledAt || scheduledAt <= new Date()`
abbrev pub is_due : Option ℕ → ℕ → Bool
is_due none now = true
is_due (some at_) now = leb at_ now

-- `hours ? now + hours : undefined`
abbrev pub lock_end : Option ℕ → ℕ → Option ℕ
lock_end none now = none
lock_end (some n) now = if n == 0 then none else some (now + hours n)

abbrev pub lock_value : Option ℕ → Value
lock_value none = undefined
lock_value (some n) = number n

-- `transitionPeriodHours || 24`
abbrev pub transition_period : Option ℕ → ℕ
transition_period none = 24
transition_period (some n) = if n == 0 then 24 else n

-- `try { body } catch (error) { handler }`
abbrev pub try_catch : {S A : Type 0} → Action S A → (Error → Action S A) → Action S A
try_catch body handler s =
    let (r, s') = body s in elim r [ ok a ↦ (ok a, s') | err e ↦ handler e s' ]

abbrev pub is_type : RotationType → Option Rotation → Bool
is_type type_ none = false
is_type oracle (some r) = elim r.type_ [ oracle ↦ true | _ ↦ false ]
is_type admin (some r) = elim r.type_ [ admin ↦ true | _ ↦ false ]
is_type jwt (some r) = elim r.type_ [ jwt ↦ true | _ ↦ false ]

abbrev pub metadata_of : Option Rotation → Metadata
metadata_of none = []
metadata_of (some r) = r.metadata

abbrev pub created_at_of : Option Rotation → ℕ
created_at_of none = 0
created_at_of (some r) = r.created_at

abbrev pub set_status : RotationState → Rotation → Rotation
set_status status r = record r { status = status }

abbrev pub close : RotationState → ℕ → Metadata → Rotation → Rotation
close status now metadata r = record r {
  status = status;
  completed_at = some now;
  metadata = metadata;
}

abbrev pub verified_metadata : Metadata → Metadata
verified_metadata metadata =
    ("transactionHash", text dummy_hash) ∷ ("verificationPassed", flag true) ∷ metadata
