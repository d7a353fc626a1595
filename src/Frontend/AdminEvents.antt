-- ===== src/Frontend/AdminEvents.antt =====
-- frontend/app/dashboard/Admin: what a user can do on the page, and what is answered meanwhile.
use carbonledger.Base.{
  ℕ, ltb, ◌-◌, String, str_eq, Bool, true, false, not, ◌&&◌, Option, none, some, List, [], ◌∷◌,
  if◌then◌else◌,
}
use carbonledger.Frontend.Texts.{Text, is_blank}
use carbonledger.Frontend.Admin.{
  JwtPayload, AuthState, loading, authorized, unauthorized, Session, use_admin_auth, is_verified,
  AdminProject, ModalState, Page, Response, load_all, loaded, open_modal, close_modal,
  handle_suspend, suspension_answered,
}

abbrev pub is_authorized : AuthState → Bool
is_authorized loading = false
is_authorized authorized = true
is_authorized unauthorized = false

-- The effects of the page, which run once: the hook, and a load where it found a session.
unfoldable pub mount : Session → Page → Page
unfolding load_all
mount session p =
    let opened = record p { session = session } in
    if is_authorized session.state then load_all opened else opened

-- The button of a row that is verified; a load shows no rows.
unfoldable pub find_shown : String → List AdminProject → Option AdminProject
find_shown id [] = none
find_shown id (p ∷ ps) =
    let rest = find_shown id ps in if str_eq p.id id && is_verified p.status then some p else rest

-- `txHash ? … : …`
abbrev pub has_text : Option String → Bool
has_text none = false
has_text (some s) = not (str_eq s "")

abbrev pub is_open : Option ModalState → Bool
is_open none = false
is_open (some m) = true

unfoldable pub is_confirmable : Page → Bool
is_confirmable p =
    is_open p.modal && not (has_text p.tx_hash) && not p.suspending && not (is_blank p.reason)

pub data Event : Type 0 where
  press_refresh press_retry press_close press_confirm : Event
  press_suspend : String → Event
  edit_reason : Text → Event
  load_answered : Response (List AdminProject) → Event
  suspend_answered : Response String → Event

-- Without a session the page shows none of these.
unfoldable pub event : Event → Page → Page
unfolding load_all loaded open_modal close_modal handle_suspend suspension_answered find_shown
    is_confirmable
event press_refresh p = if is_authorized p.session.state && not p.loading then load_all p else p
event press_retry p =
    if is_authorized p.session.state && has_text p.fetch_error then load_all p else p
event press_close p = if is_open p.modal then close_modal p else p
event press_confirm p = if is_confirmable p then handle_suspend p else p
event (press_suspend id) p = elim (find_shown id p.projects) [
  | none ↦ p
  | some project ↦
      if is_authorized p.session.state && not p.loading then open_modal project p else p
]
event (edit_reason t) p =
    if is_open p.modal && not (has_text p.tx_hash) then record p { reason = t } else p
event (load_answered r) p = if ltb 0 p.loads then loaded r (record p { loads = p.loads - 1 }) else p
event (suspend_answered r) p = elim p.asked [
  | none ↦ p
  | some asked ↦ suspension_answered asked r p
]

unfoldable pub use_page : List Event → Page → Page
unfolding event
use_page [] p = p
use_page (e ∷ es) p = use_page es (event e p)

-- What `useState` starts with.
abbrev pub new_page : Page
new_page = record {
  session = record { state = loading; email = none; token = none; location = none };
  projects = [];
  loading = true;
  fetch_error = none;
  modal = none;
  reason = [];
  suspending = false;
  error = none;
  tx_hash = none;
  asked = none;
  loads = 0;
  sent = [];
  answers = 0;
}

unfoldable pub open_admin :
    (String → Option JwtPayload) → (now : ℕ) → (token : Option String) → List Event → Page
unfolding use_admin_auth mount use_page
open_admin parse_jwt now token es =
    use_page es (mount (use_admin_auth parse_jwt now token) new_page)
