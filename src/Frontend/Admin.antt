-- ===== src/Frontend/Admin.antt =====
-- frontend/app/dashboard/Admin: page.tsx and the dialog of ProjectsTable.tsx, with lib/use-admin-auth.ts
-- and the requests of lib/admin-api.ts. The figures, the oracles and the verifiers that a load brings
-- are only shown; of a load the projects are kept. The answers of the server are events of their own.
use carbonledger.Base.{
  ℕ, ◌+◌, ◌*◌, ltb, String, str_eq, Bool, true, false, not, Option, none, some, List, [], ◌∷◌, ◌++◌,
  if◌then◌else◌,
}
use carbonledger.Frontend.Texts.{Text, is_blank, trim}

pub record JwtPayload : Type 0 where
  pub role : String
  pub email : String
  pub exp : Option ℕ

pub data AuthState : Type 0 where
  loading authorized unauthorized : AuthState

-- What the hook leaves: its state, the address of the user, the token of the storage, and the page
-- that the router is sent to.
pub record Session : Type 0 where
  pub state : AuthState
  pub email : Option String
  pub token : Option String
  pub location : Option String

-- `!token`
abbrev pub token_of : Option String → Option String
token_of none = none
token_of (some t) = if str_eq t "" then none else some t

-- `Date.now() / 1000 > payload.exp`, which is false without an expiry.
abbrev pub is_expired : ℕ → Option ℕ → Bool
is_expired now none = false
is_expired now (some exp) = ltb (exp * 1000) now

abbrev pub refused : String → Option String → Session
refused location token = record {
  state = unauthorized;
  email = none;
  token = token;
  location = some location;
}

unfoldable pub use_admin_auth : (String → Option JwtPayload) → ℕ → Option String → Session
use_admin_auth parse_jwt now token = elim (token_of token) [
  | none ↦ refused "/login?reason=admin_required" token
  | some t ↦ elim (parse_jwt t) [
    | none ↦ refused "/login?reason=admin_required" token
    | some payload ↦
        if not (str_eq payload.role "admin")
        then refused "/login?reason=admin_required" token
        else if is_expired now payload.exp
        then refused "/login?reason=session_expired" none
        else record {
          state = authorized;
          email = some payload.email;
          token = token;
          location = none;
        }
  ]
]

pub data Status : Type 0 where
  verified pending suspended rejected : Status

abbrev pub is_verified : Status → Bool
is_verified verified = true
is_verified pending = false
is_verified suspended = false
is_verified rejected = false

pub record AdminProject : Type 0 where
  pub id : String
  pub name : String
  pub status : Status

pub record SuspendProjectPayload : Type 0 where
  pub project_id : String
  pub reason : Text

pub record ModalState : Type 0 where
  pub project_id : String
  pub project_name : String

-- The page and the dialog of its table, with the request of a suspension that is under way, the ones
-- that were sent, and how many were answered.
pub record Page : Type 0 where
  pub session : Session
  pub projects : List AdminProject
  pub loading : Bool
  pub fetch_error : Option String
  pub modal : Option ModalState
  pub reason : Text
  pub suspending : Bool
  pub error : Option String
  pub tx_hash : Option String
  pub asked : Option SuspendProjectPayload
  pub loads : ℕ
  pub sent : List SuspendProjectPayload
  pub answers : ℕ

-- What a request comes to: the answer, or an error. The status 401 leads to the login besides.
pub data Response {ℓ} (A : Type ℓ) : Type ℓ where
  answer : A → Response A
  unauthorized_401 : Response A
  api_error : String → Response A

abbrev pub to_login : Session → Session
to_login s = record s { location = some "/login" }

-- `loadAll` up to its wait.
unfoldable pub load_all : Page → Page
load_all p = record p { loading = true; fetch_error = none; loads = p.loads + 1 }

unfoldable pub loaded : Response (List AdminProject) → Page → Page
loaded (answer projects) p = record p { projects = projects; loading = false }
loaded unauthorized_401 p = record p {
  session = to_login p.session;
  fetch_error = some "Unauthorized";
  loading = false;
}
loaded (api_error message) p = record p { fetch_error = some message; loading = false }

unfoldable pub handle_suspended : String → List AdminProject → List AdminProject
handle_suspended project_id [] = []
handle_suspended project_id (p ∷ ps) =
    (if str_eq p.id project_id then record p { status = suspended } else p)
    ∷ handle_suspended project_id ps

unfoldable pub open_modal : AdminProject → Page → Page
open_modal project p = record p {
  modal = some (record { project_id = project.id; project_name = project.name });
  reason = [];
  error = none;
  tx_hash = none;
}

unfoldable pub close_modal : Page → Page
close_modal p = if p.suspending then p else record p { modal = none; error = none; tx_hash = none }

abbrev pub ask : SuspendProjectPayload → Page → Page
ask payload p = record p {
  suspending = true;
  error = none;
  asked = some payload;
  sent = p.sent ++ payload ∷ [];
}

-- `handleSuspend` up to its wait.
unfoldable pub handle_suspend : Page → Page
handle_suspend p = elim p.modal [
  | none ↦ p
  | some modal ↦
      if is_blank p.reason
      then p
      else ask (record { project_id = modal.project_id; reason = trim p.reason }) p
]

abbrev pub done : Page → Page
done p = record p { suspending = false; asked = none; answers = p.answers + 1 }

-- `handleSuspend` behind its wait, with the project that was taken before it.
unfoldable pub suspension_answered : SuspendProjectPayload → Response String → Page → Page
suspension_answered asked (answer tx_hash) p =
    done
      (record p { tx_hash = some tx_hash; projects = handle_suspended asked.project_id p.projects })
suspension_answered asked unauthorized_401 p =
    done (record p { session = to_login p.session; error = some "Unauthorized" })
suspension_answered asked (api_error message) p = done (record p { error = some message })
