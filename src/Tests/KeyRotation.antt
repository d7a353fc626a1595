-- ===== src/Tests/KeyRotation.antt =====
-- The key rotation at concrete inputs.
use carbonledger.Base.{ℕ, String, none, some, List, [], ◌∷◌, ◌≡◌, refl, arith, replicate, length}
use Prim.Native.String
use carbonledger.Prisma.Memory.{
  Entries, lookup, write, update_row, update_row_found, lookup-write_self,
}
use carbonledger.Action.{Error, ok, err, record_missing}
use carbonledger.KeyRotation.Base64.{encrypt_secret}
use carbonledger.KeyRotation.Store.{Rotation, undefined, Store}
use carbonledger.KeyRotation.Requests.{
  OracleRotationRequest, JwtRotationRequest, Config, World, public_key_of,
}
use carbonledger.KeyRotation.Service.{new_oracle_rotation, initiate_oracle_rotation}
use carbonledger.KeyRotation.Store.{mock_store}
use carbonledger.KeyRotation.Outcomes.{oracle_rotation_installs_undefined, IsKept}

abbrev secret : List ℕ
secret = b'S' ∷ b'3' ∷ b'c' ∷ b'r' ∷ b'e' ∷ b't' ∷ b'K' ∷ b'e' ∷ b'y' ∷ b'!' ∷ []

secret_text_len : length (encrypt_secret secret) ≡ 16
unfolding encrypt_secret
secret_text_len = refl

abbrev short : List ℕ
short = b'k' ∷ b'e' ∷ b'y' ∷ b'1' ∷ []

abbrev config : Config
config = record {
  oracle_public_key = undefined;
  admin_public_key = undefined;
  jwt_secret = replicate 32 b'o';
}

abbrev message : Error → List ℕ
message e = []

abbrev world : World (Unit {0})
world = record { table = tt; rotate_calls = []; timers = [] }

abbrev jwt_request : JwtRotationRequest
jwt_request = record {
  new_jwt_secret = replicate 32 b'n';
  reason = [];
  transition_period_hours = none;
}

abbrev oracle_request : OracleRotationRequest
oracle_request = record {
  new_oracle_public_key = public_key_of secret;
  new_oracle_secret_key = secret;
  reason = [];
  scheduled_at = none;
}

-- A table in memory that keeps its rows.
abbrev next_id : Entries Rotation → String
next_id [] = "r"
next_id ((k, _) ∷ t) = String.◌++◌ k "r"

abbrev kept_store : Store (Entries Rotation)
kept_store = record {
  create =
      λ r t. (ok (record r { id = next_id t }), write (next_id t) (record r { id = next_id t }) t);
  find_unique = λ id t. (ok (lookup id t), t);
  update =
      λ id f t. elim (update_row id f t) [ none ↦ (err record_missing, t) | some t' ↦ (ok tt, t') ];
}

kept_updated :
    {r : Rotation} (id : String) (f : Rotation → Rotation) (t : Entries Rotation)
    → lookup id t ≡ some r
    → (t' : Entries Rotation) × (kept_store.update id f t ≡ (ok tt, t'))
      × (lookup id t' ≡ some (f r))
kept_updated {r} id f t e =
    (write id (f r) t, ground (arith, update_row_found id f t e), lookup-write_self id (f r) t)

abbrev kept : IsKept kept_store
kept = record {
  row = lookup;
  new_id = next_id;
  created = λ r t. (_, refl, lookup-write_self (next_id t) (record r { id = next_id t }) t);
  found = λ id t. refl;
  updated = λ id f t e. kept_updated id f t e;
}

abbrev full_world : World (Entries Rotation)
full_world = record { table = []; rotate_calls = []; timers = [] }

oracle_rotation_installs_undefined_example :
    ((initiate_oracle_rotation (mock_store "id" 5 []) config 5 message oracle_request world).0
      ≡ ok (record (new_oracle_rotation (mock_store "id" 5 []) config 5 message oracle_request) {
        id = "id";
        created_at = 5;
      }))
    × ((initiate_oracle_rotation
          (mock_store "id" 5 [])
          config
          5
          message
          oracle_request
          world).1.rotate_calls
        ≡ undefined ∷ [])
oracle_rotation_installs_undefined_example =
    oracle_rotation_installs_undefined config 5 message "id" [] oracle_request world refl refl
