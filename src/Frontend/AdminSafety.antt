-- ===== src/Frontend/AdminSafety.antt =====
-- frontend/app/dashboard/Admin: without an administrator nothing is asked, and no suspension is asked
-- without a reason or twice at a time.
use carbonledger.Base.{
  ℕ, ◌-◌, ltb, String, str_eq, Bool, true, false, not, ◌&&◌, ◌||◌, Option, none, some, List, [],
  ◌∷◌, ◌≡◌, refl, if◌then◌else◌, arith, ◌∙◌, ap, sym,
}
use carbonledger.Frontend.Admin.{
  JwtPayload, is_expired, use_admin_auth, Session, AdminProject, SuspendProjectPayload, Page,
  Response, answer, unauthorized_401, api_error, load_all, loaded, open_modal, close_modal,
  handle_suspend, suspension_answered,
}
use carbonledger.Frontend.AdminLaws.{
  is_idle, IsSound, if-IsSound, handle_suspend-IsSound, suspension_answered-IsSound, loaded-IsSound,
  load_all-IsSound, close_modal-IsSound, open_modal-IsSound,
}
use carbonledger.Frontend.AdminEvents.{
  is_authorized, mount, find_shown, has_text, is_open, is_confirmable, Event, press_refresh,
  press_retry, press_close, press_confirm, press_suspend, edit_reason, load_answered,
  suspend_answered, event, use_page, new_page, open_admin,
}

suspend_answered-IsSound :
    (r : Response String) (p : Page) (o : Option SuspendProjectPayload)
    → p.asked ≡ o
    → IsSound p
    → IsSound (event (suspend_answered r) p)
unfolding event
suspend_answered-IsSound r p none e i = simp (e, event) i
suspend_answered-IsSound r p (some q) e i =
    let same : event (suspend_answered r) p ≡ suspension_answered q r p = ground (arith, e) in
    rw same (suspension_answered-IsSound q r p (ground (arith, e, i.under_way)) i)

press_suspend-IsSound :
    (id : String) (p : Page) (o : Option AdminProject)
    → find_shown id p.projects ≡ o
    → IsSound p
    → IsSound (event (press_suspend id) p)
unfolding event
press_suspend-IsSound id p none e i = simp (e, event) i
press_suspend-IsSound id p (some project) e i =
    let same : event (press_suspend id) p
        ≡ (if is_authorized p.session.state && not p.loading then open_modal project p else p) =
      ground (arith, e) in
    rw same (
      if-IsSound (is_authorized p.session.state && not p.loading) (open_modal project p) p
        (λ shown. open_modal-IsSound project p (ground (arith, shown)) i) (λ shut. i))

event-IsSound : (e : Event) (p : Page) → IsSound p → IsSound (event e p)
unfolding event
event-IsSound press_refresh p i =
    if-IsSound (is_authorized p.session.state && not p.loading) (load_all p) p
      (λ shown. load_all-IsSound p (ground (arith, shown)) i) (λ shut. i)
event-IsSound press_retry p i =
    if-IsSound (is_authorized p.session.state && has_text p.fetch_error) (load_all p) p
      (λ shown. load_all-IsSound p (ground (arith, shown)) i) (λ shut. i)
event-IsSound press_close p i =
    if-IsSound (is_open p.modal) (close_modal p) p (λ shown. close_modal-IsSound p shown i)
      (λ shut. i)
event-IsSound press_confirm p i =
    if-IsSound (is_confirmable p) (handle_suspend p) p
      (λ shown. handle_suspend-IsSound p p.modal refl shown i) (λ shut. i)
event-IsSound (press_suspend id) p i = press_suspend-IsSound id p (find_shown id p.projects) refl i
event-IsSound (edit_reason t) p i =
    if-IsSound (is_open p.modal && not (has_text p.tx_hash)) (record p { reason = t }) p
      (λ shown. record {
        reasons = i.reasons;
        under_way = i.under_way;
        answered = i.answered;
        closed = i.closed;
      })
      (λ shut. i)
event-IsSound (load_answered r) p i =
    if-IsSound (ltb 0 p.loads) (loaded r (record p { loads = p.loads - 1 })) p
      (λ some_. loaded-IsSound r p (ground (arith, some_, i.closed)) i) (λ shut. i)
event-IsSound (suspend_answered r) p i = suspend_answered-IsSound r p p.asked refl i

use_page-IsSound : (es : List Event) (p : Page) → IsSound p → IsSound (use_page es p)
unfolding use_page
use_page-IsSound [] p i = i
use_page-IsSound (e ∷ es) p i = use_page-IsSound es (event e p) (event-IsSound e p i)

mount-IsSound : (session : Session) → IsSound (mount session new_page)
unfolding mount load_all
mount-IsSound session =
    let opened : Page = record new_page { session = session } in
    if-IsSound (is_authorized session.state) (load_all opened) opened
      (λ open_. record {
        reasons = tt;
        under_way = refl;
        answered = refl;
        closed = ground (arith, open_);
      })
      (λ shut. record {
        reasons = tt;
        under_way = refl;
        answered = refl;
        closed = ground (arith, shut);
      })

loaded-state :
    (r : Response (List AdminProject)) (p : Page) → (loaded r p).session.state ≡ p.session.state
unfolding loaded
loaded-state (answer ps) p = refl
loaded-state unauthorized_401 p = refl
loaded-state (api_error message) p = refl

suspension_answered-state :
    (q : SuspendProjectPayload) (r : Response String) (p : Page)
    → (suspension_answered q r p).session.state ≡ p.session.state
unfolding suspension_answered
suspension_answered-state q (answer hash) p = refl
suspension_answered-state q unauthorized_401 p = refl
suspension_answered-state q (api_error message) p = refl

answer-state :
    (r : Response String) (p : Page) (o : Option SuspendProjectPayload)
    → p.asked ≡ o
    → (event (suspend_answered r) p).session.state ≡ p.session.state
unfolding event
answer-state r p none e = ground (arith, e)
answer-state r p (some q) e = ground (arith, e, suspension_answered-state q r p)

event-state : (e : Event) (p : Page) → (event e p).session.state ≡ p.session.state
unfolding event load_all open_modal close_modal handle_suspend
event-state press_refresh p = ground arith
event-state press_retry p = ground arith
event-state press_close p = ground arith
event-state press_confirm p = ground arith
event-state (press_suspend id) p = ground arith
event-state (edit_reason t) p = ground arith
event-state (load_answered r) p = ground (arith, loaded-state r (record p { loads = p.loads - 1 }))
event-state (suspend_answered r) p = answer-state r p p.asked refl

use_page-state : (es : List Event) (p : Page) → (use_page es p).session.state ≡ p.session.state
unfolding use_page
use_page-state [] p = refl
use_page-state (e ∷ es) p = use_page-state es (event e p) ∙ event-state e p

mount-state : (session : Session) → (mount session new_page).session.state ≡ session.state
unfolding mount load_all
mount-state session = ground arith

-- A token whose payload is one of an administrator, and which has not expired.
unfoldable pub is_admin : (String → Option JwtPayload) → ℕ → Option String → Bool
is_admin parse_jwt now none = false
is_admin parse_jwt now (some t) = not (str_eq t "") && elim (parse_jwt t) [
  | none ↦ false
  | some payload ↦ str_eq payload.role "admin" && not (is_expired now payload.exp)
]

use_admin_auth-state :
    (parse_jwt : String → Option JwtPayload) (now : ℕ) (token : Option String)
    → is_authorized (use_admin_auth parse_jwt now token).state ≡ is_admin parse_jwt now token
unfolding use_admin_auth is_admin
use_admin_auth-state parse_jwt now token = ground arith

-- Whatever token the browser holds, whatever a user does on the page of the administration, and
-- whenever its requests are answered: every suspension that is asked for has a reason, and one at most
-- is under way; without the token of an administrator that has not expired, nothing is asked.
pub open_admin-IsSound :
    (parse_jwt : String → Option JwtPayload) (now : ℕ) (token : Option String) (es : List Event)
    → IsSound (open_admin parse_jwt now token es)
      × ((is_admin parse_jwt now token || is_idle (open_admin parse_jwt now token es)) ≡ true)
unfolding open_admin
open_admin-IsSound parse_jwt now token es =
    let session = use_admin_auth parse_jwt now token in
    let p = open_admin parse_jwt now token es in
    let i = use_page-IsSound es (mount session new_page) (mount-IsSound session) in
    let same : is_authorized p.session.state ≡ is_admin parse_jwt now token =
      ap is_authorized (use_page-state es (mount session new_page) ∙ mount-state session)
      ∙ use_admin_auth-state parse_jwt now token in
    (i, ap (λ b. b || is_idle p) (sym same) ∙ i.closed)
