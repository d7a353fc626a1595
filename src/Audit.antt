-- ===== src/Audit.antt =====
-- backend/src/audit: the interceptor of all handlers and the log it writes. A request's handler is any
-- step of a state, and a write to the log that fails is left out (`.catch` prints it).
use carbonledger.Base.{
  String, ◌≡◌, Bool, not, ◌&&◌, ◌||◌, Option, none, some, List, [], ◌∷◌, false, str_eq, arith,
  if◌then◌else◌,
}
use carbonledger.Action.{Action, Error, Result, ok, err}

pub record LogEntry : Type 0 where
  pub user_id : String
  pub action : String
  pub resource_id : Option String
  pub ip_address : String
  pub result : String

-- The request as the interceptor reads it: the texts of the two identifiers of the user, and the four
-- fields of the body that may name the resource. An absent text and an empty one are alike.
pub record HttpRequest : Type 0 where
  pub method : String
  pub url : String
  pub user_id : String
  pub user_public_key : String
  pub body_id : String
  pub body_project_id : String
  pub body_batch_id : String
  pub body_retirement_id : String
  pub ip : String

-- `a || b` on texts
abbrev pub or_text : String → String → String
or_text a b = if str_eq a "" then b else a

abbrev pub text? : String → Option String
text? s = if str_eq s "" then none else some s

-- `['POST', 'PUT', 'PATCH', 'DELETE'].includes(method)`
unfoldable pub changes_state : String → Bool
changes_state method =
    str_eq method "POST" || str_eq method "PUT" || str_eq method "PATCH" || str_eq method "DELETE"

-- The first text that is not empty.
abbrev pub first_given : List String → Option String
first_given [] = none
first_given (s ∷ texts) = if str_eq s "" then first_given texts else some s

abbrev pub is_among : String → List String → Bool
is_among s [] = false
is_among s (t ∷ texts) = str_eq s t || is_among s texts

-- A state with the audit log; `writes` says whether the next write of the log succeeds.
pub record Logged (S : Type 0) : Type 0 where
  pub state : S
  pub log : List LogEntry

-- `includes` is `String.prototype.includes`, `join` puts the parts of a message together, and
-- `message` is the text of an error.
module _ (includes : String → String → Bool) (join : String → String → String)
    (message : Error → String) where
  unfoldable pub is_skipped : String → Bool
  is_skipped url = includes url "/auth/" || includes url "/health"

  unfoldable pub is_audited : HttpRequest → Bool
  unfolding changes_state is_skipped
  is_audited request = changes_state request.method && not (is_skipped request.url)

  abbrev pub result_text : {A : Type 0} → Result A → String
  result_text (ok a) = "Success"
  result_text (err e) = join "Failure: " (or_text (message e) "Unknown error")

  unfoldable pub entry_of : {A : Type 0} → HttpRequest → Result A → LogEntry
  entry_of request result = record {
    user_id = or_text request.user_id (or_text request.user_public_key "anonymous");
    action = join request.method request.url;
    resource_id = text? (
        or_text request.body_id (
          or_text request.body_project_id
            (or_text request.body_batch_id request.body_retirement_id)));
    ip_address = request.ip;
    result = result_text result;
  }

  -- `createLog`, whose error is caught.
  unfoldable pub create_log : {S : Type 0} → Bool → LogEntry → Logged S → Logged S
  create_log writes entry s = if writes then record s { log = entry ∷ s.log } else s

  unfoldable pub intercept : {S A : Type 0} → Bool → HttpRequest → Action S A → Action (Logged S) A
  unfolding is_audited entry_of create_log
  intercept writes request handle s =
      let (result, state') = handle s.state in
      let s' : Logged _ = record s { state = state' } in
      (result, if is_audited request then create_log writes (entry_of request result) s' else s')

  -- The entry that a request and its answer are due.
  abbrev pub due : {A : Type 0} → HttpRequest → Result A → LogEntry
  due request result = record {
    user_id = elim (first_given (request.user_id ∷ request.user_public_key ∷ [])) [
      | none ↦ "anonymous"
      | some user ↦ user
    ];
    action = join request.method request.url;
    resource_id = first_given (
        request.body_id ∷ request.body_project_id ∷ request.body_batch_id
        ∷ request.body_retirement_id ∷ []);
    ip_address = request.ip;
    result = elim result [
      | ok a ↦ "Success"
      | err e ↦ join "Failure: " (if str_eq (message e) "" then "Unknown error" else message e)
    ];
  }

  -- The requests that are logged.
  abbrev pub is_due : HttpRequest → Bool
  is_due request =
      is_among request.method ("DELETE" ∷ "PATCH" ∷ "POST" ∷ "PUT" ∷ [])
      && not (includes request.url "/auth/")
      && not (includes request.url "/health")

  entry_of-due :
      {A : Type 0} (request : HttpRequest) (result : Result A)
      → entry_of request result ≡ due request result
  unfolding entry_of
  entry_of-due request (ok a) = ground arith
  entry_of-due request (err e) = ground arith

  is_audited-is_due : (request : HttpRequest) → is_audited request ≡ is_due request
  unfolding is_audited changes_state is_skipped
  is_audited-is_due request = ground arith

  -- The interceptor gives the handler's answer and state as they are, error or not. The log gets one
  -- entry at the front where the request deletes, patches, posts or puts, neither at /auth/ nor at
  -- /health, and the write succeeds: with the first text given of the user's two, and of the body's four,
  -- and with Success or the message of the error.
  pub intercept_lem :
      {S A : Type 0} (writes : Bool) (request : HttpRequest) (handle : Action S A) (s : Logged S)
      → let (result, s') = intercept writes request handle s in
        ((result, s'.state) ≡ handle s.state)
        × (s'.log ≡ (if is_due request && writes then due request result ∷ s.log else s.log))
  unfolding intercept create_log
  intercept_lem writes request handle s = (
    ground arith,
    ground (arith, is_audited-is_due request, entry_of-due request (handle s.state).0),
  )
