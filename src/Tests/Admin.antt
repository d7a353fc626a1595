-- ===== src/Tests/Admin.antt =====
-- The page of the administration at concrete inputs.
use carbonledger.Base.{String, true, false, ◌||◌, none, some, Option, List, [], ◌∷◌, ◌≡◌, refl}
use carbonledger.Frontend.Admin.{
  JwtPayload, authorized, AdminProject, verified, Page, SuspendProjectPayload, answer,
}
use carbonledger.Frontend.AdminEvents.{
  Event, load_answered, press_suspend, edit_reason, press_confirm, press_close, suspend_answered,
  find_shown, use_page, new_page, open_admin,
}
use carbonledger.Frontend.AdminLaws.{IsSound, is_idle}
use carbonledger.Frontend.AdminSafety.{is_admin, open_admin-IsSound}
use carbonledger.Frontend.AdminTable.{suspended_hides}

abbrev parse_jwt : String → Option JwtPayload
parse_jwt t = some (record { role = "admin"; email = "a@b.org"; exp = some 1700 })

abbrev project : String → AdminProject
project id = record { id = id; name = "Forest"; status = verified }

abbrev events : List Event
events =
    load_answered (answer (project "p1" ∷ project "p2" ∷ []))
    ∷ press_suspend "p1"
    ∷ edit_reason (b' ' ∷ b'x' ∷ [])
    ∷ press_confirm
    ∷ []

open_admin-IsSound_example :
    IsSound (open_admin parse_jwt 1600000 (some "t") events)
    × ((is_admin parse_jwt 1600000 (some "t")
          || is_idle (open_admin parse_jwt 1600000 (some "t") events))
        ≡ true)
open_admin-IsSound_example = open_admin-IsSound parse_jwt 1600000 (some "t") events

abbrev request : SuspendProjectPayload
request = record { project_id = "p1"; reason = b'x' ∷ [] }

abbrev suspending_page : Page
suspending_page = record new_page {
  session = record { state = authorized; email = none; token = some "t"; location = none };
  projects = project "p1" ∷ project "p2" ∷ [];
  loading = false;
  suspending = true;
  asked = some request;
  sent = request ∷ [];
}

suspended_hides_example :
    find_shown "p1"
      (use_page
        (suspend_answered (answer "h") ∷ press_close ∷ press_suspend "p1" ∷ [])
        suspending_page).projects
    ≡ none
suspended_hides_example =
    suspended_hides (press_close ∷ press_suspend "p1" ∷ []) request "h" suspending_page
      (tt, (tt, tt)) refl
