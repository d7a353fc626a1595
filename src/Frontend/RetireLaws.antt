-- ===== src/Frontend/RetireLaws.antt =====
-- frontend/app/retire/page.tsx: what is sent, and that a page retires once at most.
use carbonledger.Base.{
  ◌≤◌, ltb, String, Bool, true, false, not, ◌&&◌, ◌||◌, Option, none, some, List, [], ◌∷◌, ◌++◌,
  ◌≡◌, refl, if◌then◌else◌, arith, All, length,
}
use carbonledger.Frontend.Texts.{is_empty}
use carbonledger.Frontend.Toasts.{add_toast-le, dismiss-le}
use carbonledger.Frontend.Retire.{
  TxStatus, building, signing, submitting, polling, confirmed, failed, Payload, Answer, Page,
  amount_of, is_status, is_busy, is_disabled, payload_of, with_status, toast, handle_retire, fail,
  send_request, finish, tick, answered, is_submitting, Event, edit_amount, edit_beneficiary,
  edit_reason, wallet_changes, press_retire, press_retry, timer, response, close_toast, event,
}

-- A request with every field that it needs.
pub record IsWhole (q : Payload) : Type 0 where
  pub of_batch : is_empty q.batch_id ≡ false
  pub positive : 1 ≤ q.amount
  pub for_someone : is_empty q.beneficiary ≡ false
  pub with_reason : is_empty q.retirement_reason ≡ false
  pub by_holder : is_empty q.holder_public_key ≡ false

abbrev IsWhole? : Option Payload → Type 0
IsWhole? none = Unit
IsWhole? (some q) = IsWhole q

-- The server has accepted the request.
abbrev pub is_accepted : Option TxStatus → Bool
is_accepted none = false
is_accepted (some s) = elim s [ polling ↦ true | confirmed ↦ true | _ ↦ false ]

pub record IsSound (p : Page) : Type 0 where
  pub positive : 1 ≤ p.amount
  pub taken : IsWhole? p.taken
  pub sent : All IsWhole p.sent
  pub once : p.accepted ≡ (if is_accepted p.tx_status then 1 else 0)
  pub few : length p.toasts ≤ 3

append-All :
    (qs : List Payload) (q : Payload) → All IsWhole qs → IsWhole q → All IsWhole (qs ++ q ∷ [])
append-All [] q all w = (w, tt)
append-All (r ∷ qs) q (h, all) w = (h, append-All qs q all w)

if-IsSound :
    (b : Bool) (x y : Page)
    → (b ≡ true → IsSound x)
    → (b ≡ false → IsSound y)
    → IsSound (if b then x else y)
if-IsSound true x y hx hy = hx refl
if-IsSound false x y hx hy = hy refl

fail-IsSound :
    (id : String) (p : Page) → is_accepted p.tx_status ≡ false → IsSound p → IsSound (fail id p)
fail-IsSound id p h i = record {
  positive = i.positive;
  taken = i.taken;
  sent = i.sent;
  once = ground (arith, i.once);
  few = add_toast-le (toast id false) p.toasts;
}

handle_retire-IsSound :
    (p : Page) → is_accepted p.tx_status ≡ false → IsSound p → IsSound (handle_retire p)
unfolding handle_retire
handle_retire-IsSound p h i =
    if-IsSound
      (is_empty p.wallet_key || is_empty p.batch_id || is_empty p.beneficiary || is_empty p.reason)
      p (record p { tx_status = some building; taken = some (payload_of p) }) (λ missing. i)
      (λ given. record {
        positive = i.positive;
        taken = record {
          of_batch = ground (arith, given);
          positive = i.positive;
          for_someone = ground (arith, given);
          with_reason = ground (arith, given);
          by_holder = ground (arith, given);
        };
        sent = i.sent;
        once = ground (arith, i.once);
        few = i.few;
      })

send_request-IsSound :
    (id : String) (p : Page) (o : Option Payload)
    → p.taken ≡ o
    → is_accepted p.tx_status ≡ false
    → IsWhole? o
    → IsSound p
    → IsSound (send_request id p)
unfolding send_request
send_request-IsSound id p none e h w i = simp (e, send_request) i
send_request-IsSound id p (some q) e h w i =
    let same : send_request id p ≡ (
        if ltb q.amount 1
        then fail id p
        else record p { tx_status = some submitting; sent = p.sent ++ q ∷ [] }) =
      ground (arith, e) in
    rw same (
      if-IsSound (ltb q.amount 1) (fail id p)
        (record p { tx_status = some submitting; sent = p.sent ++ q ∷ [] })
        (λ small. fail-IsSound id p h i)
        (λ enough. record {
          positive = i.positive;
          taken = i.taken;
          sent = append-All p.sent q i.sent w;
          once = ground (arith, i.once);
          few = i.few;
        }))

with_status-IsSound :
    (status : TxStatus) (p : Page)
    → is_accepted (some status) ≡ is_accepted p.tx_status
    → IsSound p
    → IsSound (with_status status p)
with_status-IsSound status p h i = record {
  positive = i.positive;
  taken = i.taken;
  sent = i.sent;
  once = rw h i.once;
  few = i.few;
}

finish-IsSound :
    (id : String) (p : Page) → is_accepted p.tx_status ≡ true → IsSound p → IsSound (finish id p)
unfolding finish
finish-IsSound id p h i = record {
  positive = i.positive;
  taken = i.taken;
  sent = i.sent;
  once = ground (arith, i.once);
  few = add_toast-le (toast id true) p.toasts;
}

tick-IsSound :
    (id : String) (p : Page) (o : Option TxStatus)
    → p.tx_status ≡ o
    → IsSound p
    → IsSound (tick id p)
unfolding tick
tick-IsSound id p (some building) e i =
    let same : tick id p ≡ with_status signing p = ground (arith, e) in
    rw same (with_status-IsSound signing p (ground (arith, e)) i)
tick-IsSound id p (some signing) e i =
    let same : tick id p ≡ send_request id p = ground (arith, e) in
    rw same (send_request-IsSound id p p.taken refl (ground (arith, e)) i.taken i)
tick-IsSound id p (some polling) e i =
    let same : tick id p ≡ finish id p = ground (arith, e) in
    rw same (finish-IsSound id p (ground (arith, e)) i)
tick-IsSound id p none e i = let same : tick id p ≡ p = ground (arith, e) in rw same i
tick-IsSound id p (some _) e i = let same : tick id p ≡ p = ground (arith, e) in rw same i

answered-IsSound :
    (id : String) (a : Option Answer) (p : Page)
    → is_submitting p.tx_status ≡ true
    → IsSound p
    → IsSound (answered id a p)
unfolding answered
answered-IsSound id none p h i = fail-IsSound id p (ground (arith, h)) i
answered-IsSound id (some a) p h i = record {
  positive = i.positive;
  taken = i.taken;
  sent = i.sent;
  once = ground (arith, h, i.once);
  few = i.few;
}

event-IsSound : (e : Event) (p : Page) → IsSound p → IsSound (event e p)
unfolding event amount_of is_disabled is_busy
event-IsSound (edit_amount none) p i = record {
  positive = omega arith;
  taken = i.taken;
  sent = i.sent;
  once = i.once;
  few = i.few;
}
event-IsSound (edit_amount (some v)) p i = record {
  positive = omega arith;
  taken = i.taken;
  sent = i.sent;
  once = i.once;
  few = i.few;
}
event-IsSound (edit_beneficiary t) p i = record {
  positive = i.positive;
  taken = i.taken;
  sent = i.sent;
  once = i.once;
  few = i.few;
}
event-IsSound (edit_reason t) p i = record {
  positive = i.positive;
  taken = i.taken;
  sent = i.sent;
  once = i.once;
  few = i.few;
}
event-IsSound (wallet_changes ready key) p i = record {
  positive = i.positive;
  taken = i.taken;
  sent = i.sent;
  once = i.once;
  few = i.few;
}
event-IsSound press_retire p i =
    if-IsSound (p.wallet_ready && not (is_disabled p)) (handle_retire p) p
      (λ open_. handle_retire-IsSound p (ground (arith, open_)) i) (λ shut. i)
event-IsSound press_retry p i =
    if-IsSound (is_status failed p.tx_status) (handle_retire p) p
      (λ open_. handle_retire-IsSound p (ground (arith, open_)) i) (λ shut. i)
event-IsSound (timer id) p i = tick-IsSound id p p.tx_status refl i
event-IsSound (response id a) p i =
    if-IsSound (is_submitting p.tx_status) (answered id a p) p
      (λ waits. answered-IsSound id a p waits i) (λ idle. i)
event-IsSound (close_toast id) p i = record {
  positive = i.positive;
  taken = i.taken;
  sent = i.sent;
  once = i.once;
  few = omega (arith, i.few, dismiss-le id p.toasts);
}

unfoldable pub visit : List Event → Page → Page
visit [] p = p
visit (e ∷ es) p = visit es (event e p)

-- Whatever a user does on the page, and whenever its timers end and its requests are answered, every
-- request names a batch, an amount of 0.01 at least, a beneficiary, a reason and a holder, and the
-- server accepts one request at most.
pub visit-IsSound : (es : List Event) (p : Page) → IsSound p → IsSound (visit es p)
unfolding visit
visit-IsSound [] p i = i
visit-IsSound (e ∷ es) p i = visit-IsSound es (event e p) (event-IsSound e p i)
