-- ===== src/KeyRotation/Store.antt =====
-- backend/src/key-rotation/key-rotation.service.ts: rotation records, what the service asks of the
-- table of them, and the stand-in that its constructor installs. Texts are lists of bytes.
use carbonledger.Base.{ℕ, String, Bool, Option, none, some, List, [], ◌∷◌, str_eq, if◌then◌else◌}
use carbonledger.Action.{Action, pure}

pub data RotationType : Type 0 where
  oracle admin jwt : RotationType

pub data RotationState : Type 0 where
  pending in_progress completed failed : RotationState

-- A value in the `metadata` of a record.
pub data Value : Type 0 where
  text : List ℕ → Value
  number : ℕ → Value
  flag : Bool → Value
  undefined : Value

abbrev pub Metadata : Type 0
Metadata = List (String × Value)

-- `metadata[key]`; a spread puts its own entries in front of those it spreads.
abbrev pub get : String → Metadata → Value
get key [] = undefined
get key ((k, v) ∷ m) = if str_eq k key then v else get key m

pub record Rotation : Type 0 where
  pub id : String
  pub type_ : RotationType
  pub status : RotationState
  pub reason : List ℕ
  pub scheduled_at : Option ℕ
  pub completed_at : Option ℕ
  pub created_at : ℕ
  pub metadata : Metadata

-- `prisma.keyRotation`
pub record Store (S : Type 0) : Type 0 where
  pub create : Rotation → Action S Rotation
  pub find_unique : String → Action S (Option Rotation)
  pub update : String → (Rotation → Rotation) → Action S (Unit {0})

-- `initMockKeyRotation`, with the random identifier and the clock as arguments. Nothing is kept:
-- each record that is looked up is a pending oracle rotation with no metadata.
abbrev pub mock_store : String → ℕ → List ℕ → Store (Unit {0})
mock_store random_id now mock_reason = record {
  create = λ r. pure (record r { id = random_id; created_at = now });
  find_unique = λ id. pure (
      some (record {
        id = id;
        type_ = oracle;
        status = pending;
        reason = mock_reason;
        scheduled_at = none;
        completed_at = none;
        created_at = now;
        metadata = [];
      }));
  update = λ id f. pure tt;
}
