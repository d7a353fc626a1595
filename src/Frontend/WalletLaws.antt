-- ===== src/Frontend/WalletLaws.antt =====
-- frontend/lib/wallet/FreighterWallet.ts: the copy in the storage agrees with the wallet.
use carbonledger.Base.{
  Bool, true, false, sym, ap, ◌∙◌, not, ◌||◌, str_eq, Option, none, some, map, ◌++◌, ◌⊎◌, inl, inr,
  Bool-cases, ◌≢◌, ℕ, String, none, List, [], ◌∷◌, ◌≡◌, refl, arith,
}
use carbonledger.Frontend.Wallet.{
  Outcome, value, throws, WalletState, Stored, nothing, garbage, saved, Wallet, no_wallet,
  load_from_storage, saved_fields, save_to_storage, notify_listeners, open_page, subscribe,
  unsubscribe, with_error, Extension, missing, present, connect, disconnect, check_network,
  sign_transaction,
}

-- What a page does with the wallet; a reload opens a new page on the same storage.
pub data Event : Type 0 where
  subscribes unsubscribes : ℕ → Event
  connects : Extension → Event
  disconnects : Event
  checks : (mismatch : String → String → String) (expected : String) → Event
  signs : Outcome → Event
  reloads : Event

unfoldable pub event : Event → Wallet → Wallet
event (subscribes l) w = subscribe l w
event (unsubscribes l) w = unsubscribe l w
event (connects extension) w = (connect extension w).1
event disconnects w = disconnect w
event (checks mismatch expected) w = (check_network mismatch expected w).1
event (signs answer) w = (sign_transaction answer w).1
event reloads w = open_page w.storage

unfoldable pub use_wallet : List Event → Wallet → Wallet
unfolding event
use_wallet [] w = w
use_wallet (e ∷ es) w = use_wallet es (event e w)

-- The state that a page which is opened now has, and its error.
abbrev IsKept : Stored → WalletState → Type 0
IsKept storage state = load_from_storage storage no_wallet ≡ record state { error = none }

load-saved : (state : WalletState) → IsKept (saved (saved_fields state)) state
unfolding load_from_storage
load-saved state = refl

with_error-state :
    (message : String) (w : Wallet)
    → IsKept w.storage w.state
    → IsKept (with_error message w).storage (with_error message w).state
unfolding with_error notify_listeners
with_error-state message w k = k

-- A storage with an error in it, which `saveToStorage` never leaves.
abbrev pub has_error : Stored → Bool
has_error nothing = false
has_error garbage = false
has_error (saved parsed) = elim parsed.error [ none ↦ false | some e ↦ true ]

load-load :
    (storage : Stored)
    → has_error storage ≡ false
    → IsKept storage (load_from_storage storage no_wallet)
unfolding load_from_storage
load-load nothing h = refl
load-load garbage h = refl
load-load (saved s) h = ground (arith, h)

abbrev cleared : WalletState → WalletState
cleared state = record state { error = none }

check_network-IsKept :
    (mismatch : String → String → String) (expected : String) (w : Wallet)
    → IsKept w.storage w.state
    → IsKept
        (check_network mismatch expected w).1.storage
        (check_network mismatch expected w).1.state
unfolding check_network with_error notify_listeners
check_network-IsKept mismatch expected w k = ground (arith, k)

sign_transaction-IsKept :
    (answer : Outcome) (w : Wallet)
    → IsKept w.storage w.state
    → IsKept (sign_transaction answer w).1.storage (sign_transaction answer w).1.state
unfolding sign_transaction with_error notify_listeners
sign_transaction-IsKept answer w k = ground (arith, k)

connect-IsKept :
    (extension : Extension) (w : Wallet)
    → IsKept w.storage w.state
    → IsKept (connect extension w).1.storage (connect extension w).1.state
unfolding connect with_error save_to_storage notify_listeners load_from_storage
connect-IsKept missing w k = k
connect-IsKept (present (throws message) network) w k = k
connect-IsKept (present (value key) (throws message)) w k = k
connect-IsKept (present (value key) (value network)) w k = refl

event-IsKept :
    (e : Event) (w : Wallet)
    → IsKept w.storage w.state
    → IsKept (event e w).storage (event e w).state
unfolding event subscribe unsubscribe disconnect notify_listeners open_page load_from_storage
event-IsKept (subscribes l) w k = k
event-IsKept (unsubscribes l) w k = k
event-IsKept (connects extension) w k = connect-IsKept extension w k
event-IsKept disconnects w k = refl
event-IsKept (checks mismatch expected) w k = check_network-IsKept mismatch expected w k
event-IsKept (signs answer) w k = sign_transaction-IsKept answer w k
event-IsKept reloads w k = k ∙ sym (ap cleared k)

use_wallet-IsKept :
    (es : List Event) (w : Wallet)
    → IsKept w.storage w.state
    → IsKept (use_wallet es w).storage (use_wallet es w).state
unfolding use_wallet
use_wallet-IsKept [] w k = k
use_wallet-IsKept (e ∷ es) w k = use_wallet-IsKept es (event e w) (event-IsKept e w k)

-- Whatever fields of the wallet a browser holds in its storage, but an error, and whatever is done with
-- the wallet and answered by the extension, a page that is opened afterwards has the same wallet, with
-- no error.
pub use_wallet-open_page :
    (storage : Stored) (es : List Event)
    → has_error storage ≡ false
    → (open_page (use_wallet es (open_page storage)).storage).state
      ≡ record (use_wallet es (open_page storage)).state { error = none }
unfolding open_page
use_wallet-open_page storage es h = use_wallet-IsKept es (open_page storage) (load-load storage h)

-- The state is as it was, or every listener was told the state that it is now.
abbrev IsTold : Wallet → Wallet → Type 0
IsTold w after =
    (after.state ≡ w.state) ⊎ (after.told ≡ map (λ l. (l, after.state)) after.listeners ++ w.told)

connect-IsTold : (extension : Extension) (w : Wallet) → IsTold w (connect extension w).1
unfolding connect with_error save_to_storage notify_listeners
connect-IsTold missing w = inr refl
connect-IsTold (present (throws message) network) w = inr refl
connect-IsTold (present (value key) (throws message)) w = inr refl
connect-IsTold (present (value key) (value network)) w = inr refl

check_network-IsTold :
    (mismatch : String → String → String) (expected : String) (w : Wallet) (o : Option String)
    → w.state.network ≡ o
    → IsTold w (check_network mismatch expected w).1
unfolding check_network with_error notify_listeners
check_network-IsTold mismatch expected w none e = inl (ground (arith, e))
check_network-IsTold mismatch expected w (some network) e =
    elim (Bool-cases ((not w.state.is_connected || str_eq network "") || str_eq network expected)) [
      | inl same ↦ inl (ground (arith, e, same))
      | inr other ↦ inr (ground (arith, e, other))
    ]

sign_transaction-IsTold : (answer : Outcome) (w : Wallet) → IsTold w (sign_transaction answer w).1
unfolding sign_transaction with_error notify_listeners
sign_transaction-IsTold (value signed) w = elim (Bool-cases w.state.is_connected) [
  | inl open_ ↦ inl (ground (arith, open_))
  | inr shut ↦ inr (ground (arith, shut))
]
sign_transaction-IsTold (throws message) w = inr (ground arith)

-- Whatever is done with the wallet of a page, its state is as it was, or every listener was told the
-- state that it is now.
pub event-IsTold : (e : Event) (w : Wallet) → e ≢ reloads → IsTold w (event e w)
unfolding event subscribe unsubscribe disconnect notify_listeners
event-IsTold (subscribes l) w h = inl refl
event-IsTold (unsubscribes l) w h = inl refl
event-IsTold (connects extension) w h = connect-IsTold extension w
event-IsTold disconnects w h = inr refl
event-IsTold (checks mismatch expected) w h =
    check_network-IsTold mismatch expected w w.state.network refl
event-IsTold (signs answer) w h = sign_transaction-IsTold answer w
event-IsTold reloads w h = absurd (h refl)
