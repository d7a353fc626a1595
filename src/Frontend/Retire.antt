-- ===== src/Frontend/Retire.antt =====
-- frontend/app/retire/page.tsx: the page that retires credits, with `retireCredits` of lib/api.ts and
-- the status of components/TransactionStatus.tsx. Amounts are in hundredths of a tonne. `handleRetire`
-- is taken apart at its waits, between which the user may go on editing.
use carbonledger.Base.{
  ℕ, ◌+◌, ltb, max, String, Bool, true, false, not, ◌&&◌, ◌||◌, Option, none, some, List, [], ◌∷◌,
  ◌++◌, if◌then◌else◌,
}
use carbonledger.Frontend.Texts.{Text, is_empty}
use carbonledger.Frontend.Toasts.{ToastMessage, success, error, add_toast, dismiss}

pub data TxStatus : Type 0 where
  building signing submitting polling confirmed failed pending submitted : TxStatus

-- What the call of `retireCredits` sends.
pub record Payload : Type 0 where
  pub batch_id : Text
  pub amount : ℕ
  pub beneficiary : Text
  pub retirement_reason : Text
  pub holder_public_key : Text

pub record Answer : Type 0 where
  pub tx_hash : String
  pub retirement_id : String

-- The page: its inputs, the wallet, the run of `handleRetire` with the values that it took when it
-- was called, and the requests that were sent and accepted.
pub record Page : Type 0 where
  pub batch_id : Text
  pub amount : ℕ
  pub beneficiary : Text
  pub reason : Text
  pub tx_status : Option TxStatus
  pub tx_hash : Option String
  pub retirement_id : Option String
  pub toasts : List ToastMessage
  pub wallet_ready : Bool
  pub wallet_key : Text
  pub taken : Option Payload
  pub answer : Option Answer
  pub sent : List Payload
  pub accepted : ℕ

-- `Math.max(0.01, v || 0.01)`, where `none` is NaN.
unfoldable pub amount_of : Option ℕ → ℕ
amount_of none = 1
amount_of (some v) = max 1 v

abbrev pub is_status : TxStatus → Option TxStatus → Bool
is_status t none = false
is_status confirmed (some confirmed) = true
is_status failed (some failed) = true
is_status _ (some _) = false

unfoldable pub is_busy : Option TxStatus → Bool
is_busy none = false
is_busy (some s) = not (is_status confirmed (some s) || is_status failed (some s))

unfoldable pub is_disabled : Page → Bool
unfolding is_busy
is_disabled p =
    is_empty p.beneficiary
    || is_empty p.reason
    || is_busy p.tx_status
    || is_status confirmed p.tx_status

abbrev pub payload_of : Page → Payload
payload_of p = record {
  batch_id = p.batch_id;
  amount = p.amount;
  beneficiary = p.beneficiary;
  retirement_reason = p.reason;
  holder_public_key = p.wallet_key;
}

abbrev pub with_status : TxStatus → Page → Page
with_status status p = record p { tx_status = some status }

abbrev pub toast : String → Bool → ToastMessage
toast id ok = record {
  id = id;
  type_ = if ok then success else error;
  title = if ok then "Credits permanently retired" else "Retirement failed";
}

-- `handleRetire` up to its first wait.
unfoldable pub handle_retire : Page → Page
handle_retire p =
    if is_empty p.wallet_key || is_empty p.batch_id || is_empty p.beneficiary || is_empty p.reason
    then p
    else record p { tx_status = some building; taken = some (payload_of p) }

abbrev pub fail : String → Page → Page
fail id p = record p { tx_status = some failed; toasts = add_toast (toast id false) p.toasts }

-- `retireCredits`: an amount below 0.01 throws before anything is sent.
unfoldable pub send_request : String → Page → Page
send_request id p = elim p.taken [
  | none ↦ p
  | some payload ↦
      if ltb payload.amount 1
      then fail id p
      else record p { tx_status = some submitting; sent = p.sent ++ payload ∷ [] }
]

abbrev pub hash_of : Option Answer → Option String
hash_of none = none
hash_of (some a) = some a.tx_hash

abbrev pub id_of : Option Answer → Option String
id_of none = none
id_of (some a) = some a.retirement_id

unfoldable pub finish : String → Page → Page
finish id p = record p {
  tx_hash = hash_of p.answer;
  retirement_id = id_of p.answer;
  tx_status = some confirmed;
  toasts = add_toast (toast id true) p.toasts;
}

-- What happens next: a timer of `handleRetire` ends.
unfoldable pub tick : String → Page → Page
unfolding send_request finish
tick id p = elim p.tx_status [
  | some building ↦ with_status signing p
  | some signing ↦ send_request id p
  | some polling ↦ finish id p
  | _ ↦ p
]

-- The answer of the server to the request.
unfoldable pub answered : String → Option Answer → Page → Page
answered id none p = fail id p
answered id (some a) p = record p {
  tx_status = some polling;
  answer = some a;
  accepted = p.accepted + 1;
}

abbrev pub is_submitting : Option TxStatus → Bool
is_submitting none = false
is_submitting (some s) = elim s [ submitting ↦ true | _ ↦ false ]

pub data Event : Type 0 where
  edit_amount : Option ℕ → Event
  edit_beneficiary edit_reason : Text → Event
  wallet_changes : Bool → Text → Event
  press_retire press_retry : Event
  timer : String → Event
  response : String → Option Answer → Event
  close_toast : String → Event

-- The button is shown while the wallet is ready; Retry is shown where the transaction failed.
unfoldable pub event : Event → Page → Page
unfolding amount_of is_disabled handle_retire tick answered
event (edit_amount v) p = record p { amount = amount_of v }
event (edit_beneficiary t) p = record p { beneficiary = t }
event (edit_reason t) p = record p { reason = t }
event (wallet_changes ready key) p = record p { wallet_ready = ready; wallet_key = key }
event press_retire p = if p.wallet_ready && not (is_disabled p) then handle_retire p else p
event press_retry p = if is_status failed p.tx_status then handle_retire p else p
event (timer id) p = tick id p
event (response id a) p = if is_submitting p.tx_status then answered id a p else p
event (close_toast id) p = record p { toasts = dismiss id p.toasts }
