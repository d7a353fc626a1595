-- ===== src/Frontend/Freighter.antt =====
-- frontend/lib/freighter.ts and hooks/useWalletStatus.ts: the calls of the wallet extension, whose
-- answers are arguments, and the status that the pages show.
use carbonledger.Base.{String, Bool, true, false, not, ◌≡◌, ◌↔◌, ◌&&◌, if◌then◌else◌, arith}

-- A result of a call, or the message of the error that it throws.
pub data Result {ℓ} (A : Type ℓ) : Type ℓ where
  ok : A → Result A
  throws : String → Result A

-- An answer of the extension: its value, or the text in its `error`.
pub data Reply : Type 0 where
  value failure : String → Reply

-- What the extension answers to the calls, with `setAllowed` where it is asked. The network is the
-- passphrase in `getNetworkDetails`, which is one of the test network by `is_test`.
pub record Extension : Type 0 where
  pub is_connected : Bool
  pub is_allowed : Bool
  pub set_allowed : Bool
  pub public_key : Reply
  pub network_passphrase : Reply

pub data FreighterNetwork : Type 0 where
  testnet public futurenet : FreighterNetwork

unfoldable pub reply : Reply → Result String
reply (value s) = ok s
reply (failure message) = throws message

unfoldable pub get_public_key : Extension → Result String
unfolding reply
get_public_key x = reply x.public_key

unfoldable pub connect_freighter : Extension → Result String
unfolding get_public_key
connect_freighter x =
    if not x.is_connected
    then throws "WALLET_NOT_INSTALLED"
    else if not x.is_allowed && not x.set_allowed
    then throws "WALLET_PERMISSION_DENIED"
    else get_public_key x

-- The answer of the extension to a transaction.
unfoldable pub sign_transaction : Reply → Result String
unfolding reply
sign_transaction answer = reply answer

unfoldable pub check_network : (String → Bool) → Extension → Result FreighterNetwork
check_network is_test x = elim x.network_passphrase [
  | value passphrase ↦ ok (if is_test passphrase then testnet else public)
  | failure message ↦ throws message
]

-- `void`
abbrev pub Void : Type 0
Void = Unit

abbrev pub is_testnet : FreighterNetwork → Bool
is_testnet testnet = true
is_testnet public = false
is_testnet futurenet = false

unfoldable pub switch_to_testnet : (String → Bool) → Extension → Result Void
unfolding check_network
switch_to_testnet is_test x = elim (check_network is_test x) [
  | ok network ↦ if is_testnet network then ok tt else throws "WRONG_NETWORK"
  | throws message ↦ throws message
]

unfoldable pub is_freighter_installed : Extension → Bool
is_freighter_installed x = x.is_connected

unfoldable pub is_freighter_connected : Extension → Bool
unfolding is_freighter_installed
is_freighter_connected x = if not (is_freighter_installed x) then false else x.is_allowed

unfoldable pub is_wrong_network : (String → Bool) → Extension → Bool
unfolding check_network
is_wrong_network is_test x = elim (check_network is_test x) [
  | ok network ↦ not (is_testnet network)
  | throws message ↦ true
]

pub data WalletStatus : Type 0 where
  loading not_installed not_connected wrong_network ready : WalletStatus

-- The three questions are asked one after the other: the extension may have changed between them.
unfoldable pub check_status : (String → Bool) → (first second third : Extension) → WalletStatus
unfolding is_freighter_installed is_freighter_connected is_wrong_network
check_status is_test first second third =
    if not (is_freighter_installed first)
    then not_installed
    else if not (is_freighter_connected second)
    then not_connected
    else if is_wrong_network is_test third
    then wrong_network
    else ready

-- Where the extension stays as it is and answers a key, the status is `ready` exactly if the wallet
-- connects to the key without a permission to be given and is on the test network.
pub check_status-ready :
    (is_test : String → Bool) (x : Extension) (key : String)
    → x.public_key ≡ value key
    → (check_status is_test x x x ≡ ready) ↔ (
        (connect_freighter (record x { set_allowed = false }) ≡ ok key)
        × (switch_to_testnet is_test x ≡ ok tt))
unfolding check_status is_freighter_installed is_freighter_connected is_wrong_network check_network
    switch_to_testnet connect_freighter get_public_key reply
check_status-ready is_test x key e =
    (λ r. (ground (arith, e, r), ground (arith, r)), λ (c, t). ground (arith, c, t))
