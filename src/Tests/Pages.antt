-- ===== src/Tests/Pages.antt =====
-- The pages of the web client at concrete inputs.
use carbonledger.Base.{
  map, ◌++◌, ◌⊎◌, ◌≢◌, ℕ, String, Bool, List, true, false, none, some, [], ◌∷◌, refl, ◌≡◌, ◌≢◌, ◌↔◌,
  Option, arith,
}
use carbonledger.Frontend.Texts.{Text}
use carbonledger.Frontend.Registration.{
  FormState, State, idle, type_in, press_next, press_submit, name,
}
use carbonledger.Frontend.RegistrationLaws
use carbonledger.Frontend.RegistrationLaws.{fill_in, fill_in-IsSound}
use carbonledger.Frontend.Retire.{Page, is_busy, press_retire, timer, response}
use carbonledger.Frontend.RetireEnds.{outstanding, visit-settles}
use carbonledger.Frontend.Wallet
use carbonledger.Frontend.WalletLaws
use carbonledger.Frontend.WalletLaws.{
  connects, disconnects, checks, signs, subscribes, reloads, event, use_wallet,
  use_wallet-open_page, event-IsTold,
}
use carbonledger.Frontend.Freighter.{
  Extension, value, ok, connect_freighter, switch_to_testnet, check_status, ready,
  check_status-ready,
}
use carbonledger.Frontend.RetireLaws
use carbonledger.Frontend.RetireLaws.{visit, visit-IsSound}

abbrev x : Text
x = b'x' ∷ []

abbrev degrees : Text → Option ℕ
degrees t = some 45000000

abbrev blank_form : FormState
blank_form = record {
  name = [];
  methodology = x;
  project_type = x;
  country = x;
  latitude = x;
  longitude = x;
  vintage_year = x;
  description = [];
  contact_email = b'a' ∷ b'@' ∷ b'b' ∷ b'.' ∷ b'c' ∷ [];
  documents_cid = [];
  developer_public_key = x;
}

abbrev start : State
start = record {
  step = 0;
  form = blank_form;
  doc_file = false;
  uploading = false;
  status = idle;
  errors = [];
  sent = [];
}

start-IsSound : RegistrationLaws.IsSound degrees start
start-IsSound = record { bound = omega arith; passed = λ p. absurd (omega arith); sent = tt }

fill_in-IsSound_example :
    RegistrationLaws.IsSound degrees
      (fill_in degrees (type_in name x ∷ press_next ∷ press_submit ∷ []) start)
fill_in-IsSound_example =
    fill_in-IsSound degrees (type_in name x ∷ press_next ∷ press_submit ∷ []) start start-IsSound

abbrev page : Page
page = record {
  batch_id = x;
  amount = 100;
  beneficiary = x;
  reason = x;
  tx_status = none;
  tx_hash = none;
  retirement_id = none;
  toasts = [];
  wallet_ready = true;
  wallet_key = x;
  taken = none;
  answer = none;
  sent = [];
  accepted = 0;
}

page-IsSound : RetireLaws.IsSound page
page-IsSound = record {
  positive = omega arith;
  taken = tt;
  sent = tt;
  once = refl;
  few = omega arith;
}

visit-IsSound_example : RetireLaws.IsSound (
    visit
      (press_retire
        ∷ timer "a"
        ∷ timer "a"
        ∷ response "b" (some (record { tx_hash = "h"; retirement_id = "r" }))
        ∷ [])
      page)
visit-IsSound_example =
    visit-IsSound
      (press_retire
        ∷ timer "a"
        ∷ timer "a"
        ∷ response "b" (some (record { tx_hash = "h"; retirement_id = "r" }))
        ∷ [])
      page page-IsSound

visit-settles_example :
    is_busy
      (visit
        (outstanding (visit (press_retire ∷ timer "a" ∷ []) page).tx_status "b" none)
        (visit (press_retire ∷ timer "a" ∷ []) page)).tx_status
    ≡ false
visit-settles_example = visit-settles (press_retire ∷ timer "a" ∷ []) page "b" none refl

abbrev mismatch : String → String → String
mismatch expected network = network

abbrev wallet_events : List WalletLaws.Event
wallet_events =
    connects (Wallet.present (Wallet.value "GABC") (Wallet.value "testnet"))
    ∷ checks mismatch "public"
    ∷ signs (Wallet.value "AAAA")
    ∷ []

abbrev old_item : Wallet.Stored
old_item =
    Wallet.saved (record {
      is_connected = none;
      public_key = some (some "GOLD");
      network = none;
      error = none;
    })

use_wallet-open_page_example :
    (Wallet.open_page (use_wallet wallet_events (Wallet.open_page old_item)).storage).state
    ≡ record (use_wallet wallet_events (Wallet.open_page old_item)).state { error = none }
use_wallet-open_page_example = use_wallet-open_page old_item wallet_events refl

abbrev steady : Extension
steady = record {
  is_connected = true;
  is_allowed = true;
  set_allowed = true;
  public_key = value "GABC";
  network_passphrase = value "Test SDF Network ; September 2015";
}

abbrev any_passphrase : String → Bool
any_passphrase passphrase = true

check_status-ready_example : (check_status any_passphrase steady steady steady ≡ ready) ↔ (
    (connect_freighter (record steady { set_allowed = false }) ≡ ok "GABC")
    × (switch_to_testnet any_passphrase steady ≡ ok tt))
check_status-ready_example = check_status-ready any_passphrase steady "GABC" refl

abbrev heard : Wallet.Wallet
heard = use_wallet (subscribes 4 ∷ wallet_events) (Wallet.open_page Wallet.nothing)

not_reloads : disconnects ≢ reloads
not_reloads e = ground (arith, e)

event-IsTold_example :
    ((event disconnects heard).state ≡ heard.state)
    ⊎ ((event disconnects heard).told
        ≡ map (λ l. (l, (event disconnects heard).state)) (event disconnects heard).listeners
          ++ heard.told)
event-IsTold_example = event-IsTold disconnects heard not_reloads
