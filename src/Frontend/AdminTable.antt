-- ===== src/Frontend/AdminTable.antt =====
-- frontend/app/dashboard/Admin: the row of a project that was suspended.
use carbonledger.Base.{
  String, str_eq, Bool, true, not, ◌&&◌, Option, none, some, List, [], ◌∷◌, ◌≡◌, refl, ap, ◌∙◌,
  arith, All,
}
use carbonledger.Frontend.Admin.{
  is_verified, AdminProject, SuspendProjectPayload, Page, Response, answer, unauthorized_401,
  api_error, load_all, open_modal, close_modal, handle_suspend, handle_suspended,
  suspension_answered,
}
use carbonledger.Frontend.AdminEvents.{
  find_shown, Event, press_refresh, press_retry, press_close, press_confirm, press_suspend,
  edit_reason, load_answered, suspend_answered, event, use_page,
}

-- No row of the project has the button.
abbrev is_hidden : String → List AdminProject → Bool
is_hidden id [] = true
is_hidden id (p ∷ ps) = not (str_eq p.id id && is_verified p.status) && is_hidden id ps

handle_suspended-same :
    (id : String) (ps : List AdminProject) → is_hidden id (handle_suspended id ps) ≡ true
unfolding handle_suspended
handle_suspended-same id [] = refl
handle_suspended-same id (p ∷ ps) = ground (arith, handle_suspended-same id ps)

handle_suspended-other :
    (id other : String) (ps : List AdminProject)
    → is_hidden id ps ≡ true
    → is_hidden id (handle_suspended other ps) ≡ true
unfolding handle_suspended
handle_suspended-other id other [] h = refl
handle_suspended-other id other (p ∷ ps) h =
    ground (arith, h, handle_suspended-other id other ps (ground (arith, h)))

find_shown-hidden :
    (id : String) (ps : List AdminProject) → is_hidden id ps ≡ true → find_shown id ps ≡ none
unfolding find_shown
find_shown-hidden id [] h = refl
find_shown-hidden id (p ∷ ps) h = ground (arith, h, find_shown-hidden id ps (ground (arith, h)))

abbrev pub NoLoad : Event → Type 0
NoLoad (load_answered r) = ⊥
NoLoad _ = Unit

answered-hidden :
    (id : String) (r : Response String) (p : Page) (o : Option SuspendProjectPayload)
    → p.asked ≡ o
    → is_hidden id p.projects ≡ true
    → is_hidden id (event (suspend_answered r) p).projects ≡ true
unfolding event suspension_answered
answered-hidden id r p none e h = ground (arith, e, h)
answered-hidden id (answer hash) p (some q) e h =
    ground (arith, e, h, handle_suspended-other id q.project_id p.projects h)
answered-hidden id unauthorized_401 p (some q) e h = ground (arith, e, h)
answered-hidden id (api_error message) p (some q) e h = ground (arith, e, h)

event-hidden :
    (id : String) (e : Event) (p : Page)
    → NoLoad e
    → is_hidden id p.projects ≡ true
    → is_hidden id (event e p).projects ≡ true
unfolding event load_all open_modal close_modal handle_suspend
event-hidden id press_refresh p n h = ground (arith, h)
event-hidden id press_retry p n h = ground (arith, h)
event-hidden id press_close p n h = ground (arith, h)
event-hidden id press_confirm p n h = ground (arith, h)
event-hidden id (press_suspend other) p n h = ground (arith, h)
event-hidden id (edit_reason t) p n h = ground (arith, h)
event-hidden id (load_answered r) p n h = absurd n
event-hidden id (suspend_answered r) p n h = answered-hidden id r p p.asked refl h

use_page-hidden :
    (id : String) (es : List Event) (p : Page)
    → All NoLoad es
    → is_hidden id p.projects ≡ true
    → is_hidden id (use_page es p).projects ≡ true
unfolding use_page
use_page-hidden id [] p n h = h
use_page-hidden id (e ∷ es) p (n, ns) h =
    use_page-hidden id es (event e p) ns (event-hidden id e p n h)

-- A project whose suspension the server has answered has no button to suspend it, whatever the user
-- does and whatever else is answered, until a load is answered.
pub suspended_hides :
    (es : List Event) (q : SuspendProjectPayload) (hash : String) (p : Page)
    → All NoLoad es
    → p.asked ≡ some q
    → find_shown q.project_id (use_page (suspend_answered (answer hash) ∷ es) p).projects ≡ none
unfolding use_page event suspension_answered
suspended_hides es q hash p n e =
    let after = event (suspend_answered (answer hash)) p in
    let marked : after.projects ≡ handle_suspended q.project_id p.projects = ground (arith, e) in
    find_shown-hidden q.project_id (use_page es after).projects (
      use_page-hidden q.project_id es after n
        (ap (is_hidden q.project_id) marked ∙ handle_suspended-same q.project_id p.projects))
