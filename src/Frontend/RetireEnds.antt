-- ===== src/Frontend/RetireEnds.antt =====
-- frontend/app/retire/page.tsx: a retirement that was started comes to an end.
use carbonledger.Base.{
  ap, Bool-cases, inl, inr, ◌||◌, String, Bool, true, false, Option, none, some, List, [], ◌∷◌, ◌≡◌,
  refl, arith,
}
use carbonledger.Frontend.Texts.{is_empty}
use carbonledger.Frontend.Retire.{
  TxStatus, building, signing, submitting, polling, confirmed, failed, pending, submitted, Payload,
  Answer, Page, amount_of, is_busy, handle_retire, send_request, finish, tick, answered, Event,
  edit_amount, edit_beneficiary, edit_reason, wallet_changes, press_retire, press_retry, timer,
  response, close_toast, event,
}
use carbonledger.Frontend.RetireLaws.{visit}

abbrev is_some : Option Payload → Bool
is_some none = false
is_some (some q) = true

-- A page whose status is one of those that `handleRetire` sets, with the payload that it took as long
-- as it needs it.
abbrev is_running : Option TxStatus → Option Payload → Bool
is_running none taken = true
is_running (some s) taken = elim s [
  | pending ↦ false
  | submitted ↦ false
  | building ↦ is_some taken
  | signing ↦ is_some taken
  | _ ↦ true
]

-- A page without a run, or with one that goes on.
abbrev pub IsLive : Page → Type 0
IsLive p = is_running p.tx_status p.taken ≡ true

handle_retire-IsLive : (p : Page) → IsLive p → IsLive (handle_retire p)
unfolding handle_retire
handle_retire-IsLive p h =
    elim (Bool-cases (
      is_empty p.wallet_key
      || is_empty p.batch_id
      || is_empty p.beneficiary
      || is_empty p.reason)) [
        | inl missing ↦ ground (arith, h, missing)
        | inr given ↦ ground (arith, h, given)
      ]

tick-IsLive :
    (id : String) (p : Page) (status : Option TxStatus) (taken : Option Payload)
    → p.tx_status ≡ status
    → p.taken ≡ taken
    → IsLive p
    → IsLive (tick id p)
unfolding tick send_request finish
tick-IsLive id p none taken e t h = ground (arith, e, h)
tick-IsLive id p (some building) taken e t h = ground (arith, e, h)
tick-IsLive id p (some signing) none e t h = ground (arith, e, t, h)
tick-IsLive id p (some signing) (some q) e t h = ground (arith, e, t, h)
tick-IsLive id p (some submitting) taken e t h = ground (arith, e, h)
tick-IsLive id p (some polling) taken e t h = ground (arith, e, h)
tick-IsLive id p (some confirmed) taken e t h = ground (arith, e, h)
tick-IsLive id p (some failed) taken e t h = ground (arith, e, h)
tick-IsLive id p (some pending) taken e t h = ground (arith, e, h)
tick-IsLive id p (some submitted) taken e t h = ground (arith, e, h)

answered-IsLive : (id : String) (a : Option Answer) (p : Page) → IsLive (answered id a p)
unfolding answered
answered-IsLive id none p = refl
answered-IsLive id (some a) p = refl

event-IsLive : (e : Event) (p : Page) → IsLive p → IsLive (event e p)
unfolding event amount_of
event-IsLive (edit_amount v) p h = h
event-IsLive (edit_beneficiary t) p h = h
event-IsLive (edit_reason t) p h = h
event-IsLive (wallet_changes ready key) p h = h
event-IsLive press_retire p h = ground (arith, h, handle_retire-IsLive p h)
event-IsLive press_retry p h = ground (arith, h, handle_retire-IsLive p h)
event-IsLive (timer id) p h = tick-IsLive id p p.tx_status p.taken refl refl h
event-IsLive (response id a) p h = ground (arith, h, answered-IsLive id a p)
event-IsLive (close_toast id) p h = h

visit-IsLive : (es : List Event) (p : Page) → IsLive p → IsLive (visit es p)
unfolding visit
visit-IsLive [] p h = h
visit-IsLive (e ∷ es) p h = visit-IsLive es (event e p) (event-IsLive e p h)

-- The timers and the answer that a page waits for.
unfoldable pub outstanding : Option TxStatus → String → Option Answer → List Event
outstanding none id a = []
outstanding (some s) id a = elim s [
  | building ↦ timer id ∷ timer id ∷ response id a ∷ timer id ∷ []
  | signing ↦ timer id ∷ response id a ∷ timer id ∷ []
  | submitting ↦ response id a ∷ timer id ∷ []
  | polling ↦ timer id ∷ []
  | _ ↦ []
]

settles :
    (id : String) (a : Option Answer) (p : Page) (status : Option TxStatus) (taken : Option Payload)
    → p.tx_status ≡ status
    → p.taken ≡ taken
    → is_running status taken ≡ true
    → is_busy (visit (outstanding status id a) p).tx_status ≡ false
unfolding is_busy visit event tick send_request finish answered outstanding
settles id a p none taken e t h = ap is_busy e
settles id a p (some building) none e t h = absurd (ground (arith, h))
settles id none p (some building) (some q) e t h = ground (arith, e, t)
settles id (some b) p (some building) (some q) e t h = ground (arith, e, t)
settles id a p (some signing) none e t h = absurd (ground (arith, h))
settles id none p (some signing) (some q) e t h = ground (arith, e, t)
settles id (some b) p (some signing) (some q) e t h = ground (arith, e, t)
settles id none p (some submitting) taken e t h = ground (arith, e)
settles id (some b) p (some submitting) taken e t h = ground (arith, e)
settles id a p (some polling) taken e t h = ground (arith, e)
settles id a p (some confirmed) taken e t h = ground (arith, e)
settles id a p (some failed) taken e t h = ground (arith, e)
settles id a p (some pending) taken e t h = absurd (ground (arith, h))
settles id a p (some submitted) taken e t h = absurd (ground (arith, h))

-- Whatever a user does on the page, and whenever its timers end and its requests are answered, the
-- timers and the answer that it then waits for bring it to `confirmed` or `failed`, or it has not begun.
pub visit-settles :
    (es : List Event) (p : Page) (id : String) (a : Option Answer)
    → IsLive p
    → is_busy (visit (outstanding (visit es p).tx_status id a) (visit es p)).tx_status ≡ false
visit-settles es p id a h =
    let q = visit es p in settles id a q q.tx_status q.taken refl refl (visit-IsLive es p h)
