-- ===== src/KeyRotation/Service.antt =====
-- backend/src/key-rotation/key-rotation.service.ts. The clock is an argument, logs are left out.
use carbonledger.Base.{
  ℕ, ◌+◌, String, not, none, some, List, [], ◌∷◌, ◌++◌, ltb, if◌then◌else◌, length,
}
use carbonledger.Action.{Action, Error, bad_request, ◌>>=◌, ◌>>◌, pure, throw, throw_if, modify}
use carbonledger.Base.Digits.{texts_eq}
use carbonledger.KeyRotation.Base64.{encrypt_secret}
use carbonledger.KeyRotation.Store.{
  Rotation, oracle, admin, jwt, pending, in_progress, completed, failed, Value, text, number, flag,
  Metadata, get, Store,
}
use carbonledger.KeyRotation.Requests.{
  OracleRotationRequest, AdminRotationRequest, JwtRotationRequest, Config, World, public_key_of,
  hours, is_due, lock_end, lock_value, transition_period, try_catch, is_type, metadata_of,
  created_at_of, set_status, close, verified_metadata,
}

module _ {S : Type 0} (store : Store S) (config : Config) (now : ℕ) (message : Error → List ℕ) where
  -- A call of the table, in the service's world.
  abbrev pub on_table : {A : Type 0} → Action S A → Action (World S) A
  on_table call w = let (r, table) = call w.table in (r, record w { table = table })

  -- `callContractFunction` on `rotate_oracle`, a stand-in that answers a fixed hash.
  abbrev pub call_rotate_oracle : Value → Action (World S) (Unit {0})
  call_rotate_oracle key = modify (λ w. record w { rotate_calls = w.rotate_calls ++ key ∷ [] })

  -- The steps of `executeOracleRotation` inside its `try`.
  unfoldable pub rotate_oracle : String → Metadata → Action (World S) (Unit {0})
  rotate_oracle id metadata = do
    on_table (store.update id (set_status in_progress))
    call_rotate_oracle (get "newOraclePublicKey" metadata)
    on_table (store.update id (close completed now (verified_metadata metadata)))

  unfoldable pub mark_failed : String → Metadata → Error → Action (World S) (Unit {0})
  mark_failed id metadata e =
      on_table (store.update id (close failed now (("error", text (message e)) ∷ metadata)))

  unfoldable pub execute_oracle_rotation : String → Action (World S) (Unit {0})
  unfolding rotate_oracle mark_failed
  execute_oracle_rotation id = do
    rotation ← on_table (store.find_unique id)
    throw_if (not (is_type oracle rotation)) (bad_request "Invalid rotation record")
    try_catch (rotate_oracle id (metadata_of rotation))
        (λ e. mark_failed id (metadata_of rotation) e >> throw e)

  unfoldable pub new_oracle_rotation : OracleRotationRequest → Rotation
  new_oracle_rotation request = record {
    id = "";
    type_ = oracle;
    status = pending;
    reason = request.reason;
    scheduled_at = request.scheduled_at;
    completed_at = none;
    created_at = now;
    metadata =
        ("newOraclePublicKey", text request.new_oracle_public_key)
        ∷ ("newOracleSecretKey", text (encrypt_secret request.new_oracle_secret_key))
        ∷ ("oldOraclePublicKey", config.oracle_public_key)
        ∷ [];
  }

  unfoldable pub initiate_oracle_rotation : OracleRotationRequest → Action (World S) Rotation
  unfolding execute_oracle_rotation new_oracle_rotation
  initiate_oracle_rotation request = do
    throw_if
        (not (texts_eq (public_key_of request.new_oracle_secret_key) request.new_oracle_public_key))
        (bad_request "Invalid keypair provided")
    rotation ← on_table (store.create (new_oracle_rotation request))
    if is_due request.scheduled_at now then execute_oracle_rotation rotation.id else pure tt
    pure rotation

  unfoldable pub new_admin_rotation : AdminRotationRequest → Rotation
  new_admin_rotation request = record {
    id = "";
    type_ = admin;
    status = if request.multi_sig_required then pending else in_progress;
    reason = request.reason;
    scheduled_at = lock_end request.time_lock_hours now;
    completed_at = none;
    created_at = now;
    metadata =
        ("newAdminPublicKey", text request.new_admin_public_key)
        ∷ ("newAdminSecretKey", text (encrypt_secret request.new_admin_secret_key))
        ∷ ("oldAdminPublicKey", config.admin_public_key)
        ∷ ("multiSigRequired", flag request.multi_sig_required)
        ∷ ("timeLockHours", lock_value request.time_lock_hours)
        ∷ [];
  }

  unfoldable pub initiate_admin_rotation : AdminRotationRequest → Action (World S) Rotation
  unfolding new_admin_rotation
  initiate_admin_rotation request = do
    throw_if
        (not (texts_eq (public_key_of request.new_admin_secret_key) request.new_admin_public_key))
        (bad_request "Invalid keypair provided")
    on_table (store.create (new_admin_rotation request))

  unfoldable pub finalize_jwt_rotation : String → Action (World S) (Unit {0})
  finalize_jwt_rotation id = do
    rotation ← on_table (store.find_unique id)
    elim rotation [
      | none ↦ pure tt
      | some r ↦
          on_table
            (store.update id (close completed now (("finalizedAt", number now) ∷ r.metadata)))
    ]

  -- `transitionEnd > new Date()` sets a timer for the rest of the period; a period that is no
  -- number gives no date, which is not later than any.
  unfoldable pub finish_transition : String → Value → ℕ → Action (World S) (Unit {0})
  unfolding finalize_jwt_rotation
  finish_transition id (number n) created w =
      if ltb now (created + hours n)
      then (modify (λ w. record w { timers = w.timers ++ (created + hours n, id) ∷ [] })) w
      else finalize_jwt_rotation id w
  finish_transition id _ created w = finalize_jwt_rotation id w

  unfoldable pub execute_jwt_rotation : String → Action (World S) (Unit {0})
  unfolding finish_transition mark_failed
  execute_jwt_rotation id = do
    rotation ← on_table (store.find_unique id)
    throw_if (not (is_type jwt rotation)) (bad_request "Invalid rotation record")
    try_catch
        (finish_transition id (get "transitionPeriodHours" (metadata_of rotation))
          (created_at_of rotation))
        (mark_failed id (metadata_of rotation))

  unfoldable pub new_jwt_rotation : JwtRotationRequest → Rotation
  new_jwt_rotation request = record {
    id = "";
    type_ = jwt;
    status = in_progress;
    reason = request.reason;
    scheduled_at = some (now + hours (transition_period request.transition_period_hours));
    completed_at = none;
    created_at = now;
    metadata =
        ("newJWTSecret", text (encrypt_secret request.new_jwt_secret))
        ∷ ("oldJWTSecret", text (encrypt_secret config.jwt_secret))
        ∷ ("transitionPeriodHours", number (transition_period request.transition_period_hours))
        ∷ [];
  }

  unfoldable pub initiate_jwt_rotation : JwtRotationRequest → Action (World S) Rotation
  unfolding execute_jwt_rotation new_jwt_rotation
  initiate_jwt_rotation request = do
    throw_if (ltb (length request.new_jwt_secret) 32)
        (bad_request "JWT secret must be at least 32 characters")
    rotation ← on_table (store.create (new_jwt_rotation request))
    execute_jwt_rotation rotation.id
    pure rotation
