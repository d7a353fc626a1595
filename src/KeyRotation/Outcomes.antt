-- ===== src/KeyRotation/Outcomes.antt =====
-- backend/src/key-rotation/key-rotation.service.ts: how rotations end, over the stand-in and over a
-- table that keeps its rows.
use carbonledger.Base.{
  ℕ, ◌+◌, ◌≤◌, ◌<◌, String, true, Option, none, some, List, [], ◌∷◌, ◌++◌, ltb, ◌≡◌, arith, length,
  if◌then◌else◌,
}
use carbonledger.Base.Digits.{texts_eq}
use carbonledger.Action.{Error, ok, err, bad_request}
use carbonledger.KeyRotation.Store.{
  Rotation, RotationState, in_progress, completed, text, undefined, Store, mock_store,
}
use carbonledger.KeyRotation.Requests.{
  set_status, close, verified_metadata, OracleRotationRequest, JwtRotationRequest, Config, World,
  public_key_of, is_due, hours, transition_period,
}
use carbonledger.KeyRotation.Service.{
  new_oracle_rotation, new_jwt_rotation, rotate_oracle, execute_oracle_rotation,
  execute_jwt_rotation, finish_transition, initiate_oracle_rotation, initiate_jwt_rotation,
}

module _ (config : Config) (now : ℕ) (message : Error → List ℕ) (random_id : String)
    (mock_reason : List ℕ) where
  -- Over the stand-in no rotation of the token secret is ever started: each request throws, and
  -- leaves the timers and the calls of the contract as they were.
  pub jwt_rotation_throws :
      (request : JwtRotationRequest) (w : World (Unit {0}))
      → (e : Error) × (initiate_jwt_rotation
            (mock_store random_id now mock_reason)
            config
            now
            message
            request
            w
          ≡ (err e, w))
  unfolding initiate_jwt_rotation execute_jwt_rotation new_jwt_rotation
  jwt_rotation_throws request w = (
    bad_request (
        if ltb (length request.new_jwt_secret) 32
        then "JWT secret must be at least 32 characters"
        else "Invalid rotation record"),
    ground arith,
  )

  -- Over the stand-in a rotation of the oracle's key that is due goes through, and asks the contract
  -- to install an undefined key in place of the one requested.
  pub oracle_rotation_installs_undefined :
      (request : OracleRotationRequest) (w : World (Unit {0}))
      → texts_eq (public_key_of request.new_oracle_secret_key) request.new_oracle_public_key ≡ true
      → is_due request.scheduled_at now ≡ true
      → let (result, w') =
          initiate_oracle_rotation
            (mock_store random_id now mock_reason)
            config
            now
            message
            request
            w in
        (result
          ≡ ok
              (record (new_oracle_rotation
                (mock_store random_id now mock_reason)
                config
                now
                message
                request) { id = random_id; created_at = now }))
        × (w'.rotate_calls ≡ w.rotate_calls ++ undefined ∷ [])
  unfolding initiate_oracle_rotation execute_oracle_rotation rotate_oracle new_oracle_rotation
  oracle_rotation_installs_undefined request w matches due = (ground arith, ground arith)

-- A table of rotations that keeps its rows under the identifiers that it gives.
pub record IsKept {S : Type 0} (store : Store S) : Type 0 where
  pub row : String → S → Option Rotation
  pub new_id : S → String
  pub created :
      (r : Rotation) (s : S)
      → (s' : S) × (store.create r s ≡ (ok (record r { id = new_id s }), s'))
        × (row (new_id s) s' ≡ some (record r { id = new_id s }))
  pub found : (id : String) (s : S) → store.find_unique id s ≡ (ok (row id s), s)
  pub updated :
      {r : Rotation} (id : String) (f : Rotation → Rotation) (s : S)
      → row id s ≡ some r
      → (s' : S) × (store.update id f s ≡ (ok tt, s')) × (row id s' ≡ some (f r))

abbrev pub status_of : Option Rotation → Option RotationState
status_of none = none
status_of (some r) = some r.status

module _ {S : Type 0} (store : Store S) (kept : IsKept store) (config : Config) (now : ℕ)
    (message : Error → List ℕ) where
  -- Over a table that keeps its rows, a rotation of the oracle's key that is due asks the contract
  -- to install the requested key, and its record is completed.
  pub oracle_rotation_completes :
      (request : OracleRotationRequest) (w : World S)
      → texts_eq (public_key_of request.new_oracle_secret_key) request.new_oracle_public_key ≡ true
      → is_due request.scheduled_at now ≡ true
      → let (result, w') = initiate_oracle_rotation store config now message request w in
        (result
          ≡ ok (record (new_oracle_rotation store config now message request) {
            id = kept.new_id w.table;
          }))
        × (w'.rotate_calls ≡ w.rotate_calls ++ text request.new_oracle_public_key ∷ [])
        × (status_of (kept.row (kept.new_id w.table) w'.table) ≡ some completed)
  unfolding initiate_oracle_rotation execute_oracle_rotation rotate_oracle new_oracle_rotation
  oracle_rotation_completes request w matches due =
      let fresh = new_oracle_rotation store config now message request in
      let id = kept.new_id w.table in
      let (s1, made, row1) = kept.created fresh w.table in
      let looked = kept.found id s1 in
      let (s2, begun, row2) = kept.updated id (set_status in_progress) s1 row1 in
      let (s3, done, row3) =
        kept.updated id (close completed now (verified_metadata fresh.metadata)) s2 row2 in
      (
        ground (arith, made, looked, row1, begun, done),
        ground (arith, made, looked, row1, begun, done),
        ground (arith, made, looked, row1, begun, done, row3),
      )

  -- Over such a table, a rotation of the token secret to one of 32 characters or more, with a
  -- transition period of an hour or more, sets one timer, for the end of the period.
  pub jwt_rotation_sets_timer :
      (request : JwtRotationRequest) (w : World S)
      → 32 ≤ length request.new_jwt_secret
      → 0 < transition_period request.transition_period_hours
      → let (result, w') = initiate_jwt_rotation store config now message request w in
        (result
          ≡ ok (record (new_jwt_rotation store config now message request) {
            id = kept.new_id w.table;
          }))
        × (w'.timers
            ≡ w.timers
              ++ (
                now + hours (transition_period request.transition_period_hours),
                kept.new_id w.table,
              )
                ∷ [])
  unfolding initiate_jwt_rotation execute_jwt_rotation new_jwt_rotation finish_transition
  jwt_rotation_sets_timer request w long positive =
      let fresh = new_jwt_rotation store config now message request in
      let (s1, made, row1) = kept.created fresh w.table in
      let looked = kept.found (kept.new_id w.table) s1 in
      (ground (arith, made, looked, row1), ground (arith, made, looked, row1))
