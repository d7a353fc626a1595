-- ===== src/Frontend/Wallet.antt =====
-- frontend/lib/wallet/FreighterWallet.ts: the wallet of the web client, its copy in the storage of the
-- browser and those who listen to it. Each call changes the state behind its last wait, so that it is
-- one step. The answers of the extension are arguments; a listener is known by its number.
use carbonledger.Base.{
  ℕ, ◌==◌, String, Bool, true, false, not, ◌||◌, Option, none, some, List, [], ◌∷◌, ◌++◌, map,
  str_eq, if◌then◌else◌,
}

-- A promise: its value, or the message of what it throws.
pub data Outcome : Type 0 where
  value : String → Outcome
  throws : String → Outcome

pub record WalletState : Type 0 where
  pub is_connected : Bool
  pub public_key : Option String
  pub network : Option String
  pub error : Option String

-- A parsed item of the storage: a field is `none` where the text lacks it. Fields that the state does
-- not have change nothing of it; fields of other types than the state's are left out.
pub record Parsed : Type 0 where
  pub is_connected : Option Bool
  pub public_key : Option (Option String)
  pub network : Option (Option String)
  pub error : Option (Option String)

-- The item of the storage: none, a text that is no JSON, or the fields of an object.
pub data Stored : Type 0 where
  nothing garbage : Stored
  saved : Parsed → Stored

-- What was told to which listener, the last round first.
pub record Wallet : Type 0 where
  pub state : WalletState
  pub storage : Stored
  pub listeners : List ℕ
  pub told : List (ℕ × WalletState)

abbrev pub no_wallet : WalletState
no_wallet = record { is_connected = false; public_key = none; network = none; error = none }

-- A field of `{ ...state, ...parsed }`
abbrev pub spread : {A : Type 0} → A → Option A → A
spread old none = old
spread old (some new) = new

unfoldable pub load_from_storage : Stored → WalletState → WalletState
load_from_storage nothing state = state
load_from_storage garbage state = state
load_from_storage (saved parsed) state = record {
  is_connected = spread state.is_connected parsed.is_connected;
  public_key = spread state.public_key parsed.public_key;
  network = spread state.network parsed.network;
  error = spread state.error parsed.error;
}

-- The three fields that `saveToStorage` writes.
abbrev pub saved_fields : WalletState → Parsed
saved_fields state = record {
  is_connected = some state.is_connected;
  public_key = some state.public_key;
  network = some state.network;
  error = none;
}

unfoldable pub save_to_storage : Wallet → Wallet
save_to_storage w = record w { storage = saved (saved_fields w.state) }

unfoldable pub notify_listeners : Wallet → Wallet
notify_listeners w = record w { told = map (λ l. (l, w.state)) w.listeners ++ w.told }

-- A page that is opened.
unfoldable pub open_page : Stored → Wallet
unfolding load_from_storage
open_page storage = record {
  state = load_from_storage storage no_wallet;
  storage = storage;
  listeners = [];
  told = [];
}

unfoldable pub subscribe : ℕ → Wallet → Wallet
subscribe l w = record w { listeners = w.listeners ++ l ∷ [] }

unfoldable pub without : ℕ → List ℕ → List ℕ
without l [] = []
without l (m ∷ ms) = let rest = without l ms in if m == l then rest else m ∷ rest

-- The function that `subscribe` returns.
unfoldable pub unsubscribe : ℕ → Wallet → Wallet
unfolding without
unsubscribe l w = record w { listeners = without l w.listeners }

-- `this.state.error = message; this.notifyListeners()`
unfoldable pub with_error : String → Wallet → Wallet
unfolding notify_listeners
with_error message w =
    notify_listeners (record w { state = record w.state { error = some message } })

-- `window.freighterApi` with what it answers for the key and the network.
pub data Extension : Type 0 where
  missing : Extension
  present : (public_key network : Outcome) → Extension

abbrev pub not_installed : String
not_installed = "Freighter not installed. Please install Freighter wallet extension."

abbrev pub connected : String → String → Wallet → Wallet
connected public_key network w = record w {
  state = record {
    is_connected = true;
    public_key = some public_key;
    network = some network;
    error = none;
  };
}

-- The success that `connect` answers, and the wallet.
unfoldable pub connect : Extension → Wallet → Bool × Wallet
unfolding with_error save_to_storage notify_listeners
connect missing w = (false, with_error not_installed w)
connect (present (throws message) network) w = (false, with_error message w)
connect (present (value key) (throws message)) w = (false, with_error message w)
connect (present (value key) (value network)) w =
    (true, notify_listeners (save_to_storage (connected key network w)))

unfoldable pub disconnect : Wallet → Wallet
unfolding notify_listeners
disconnect w = notify_listeners (record w { state = no_wallet; storage = nothing })

-- `Network mismatch. Expected …, got …` as an argument of the two names.
unfoldable pub check_network :
    (String → String → String) → String → Wallet → (Bool × Option String) × Wallet
unfolding with_error
check_network mismatch expected w = elim w.state.network [
  | none ↦ ((false, none), w)
  | some network ↦
      if not w.state.is_connected || str_eq network ""
      then ((false, none), w)
      else if str_eq network expected
      then ((true, some network), w)
      else ((false, some network), with_error (mismatch expected network) w)
]

unfoldable pub sign_transaction : Outcome → Wallet → Option String × Wallet
unfolding with_error
sign_transaction answer w =
    if w.state.is_connected
    then elim answer [
      | value signed ↦ (some signed, w)
      | throws message ↦ (none, with_error message w)
    ]
    else (none, with_error "Wallet not connected" w)
