-- ===== src/Tests/Genesis.antt =====
-- The genesis indexer at concrete inputs.
use carbonledger.Base.{ℕ, none, some, List, [], ◌∷◌, ◌≡◌, refl, arith}
use carbonledger.Genesis.Service.{Chain, EventResponse, Event, minted, verified_, sort}
use carbonledger.Genesis.Fetch.{Page, Server, get_all_events, get_all_events_lem}
use carbonledger.Genesis.Order.{InOrder, of_transaction, sort_lem}
use carbonledger.Tests.Samples.{batch}

abbrev chain : Chain
chain = record {
  get_project = λ id. none;
  get_credit_batch = λ id. some batch;
  get_retirement_certificate = λ id. none;
  get_listing = λ id. none;
}

abbrev at_ledger : ℕ → ℕ → Event → EventResponse
at_ledger ledger tx_index event = record { ledger = ledger; tx_index = tx_index; event = event }

abbrev unsorted : List EventResponse
unsorted =
    at_ledger 7 1 (minted "b1")
    ∷ at_ledger 7 0 (verified_ "p3")
    ∷ at_ledger 7 1 (minted "b2")
    ∷ at_ledger 2 5 (verified_ "p1")
    ∷ []

sort_lem_example :
    InOrder (sort unsorted)
    × (of_transaction 7 1 (sort unsorted)
        ≡ at_ledger 7 1 (minted "b1") ∷ at_ledger 7 1 (minted "b2") ∷ [])
sort_lem_example = sort_lem 7 1 unsorted

abbrev first_page : Page
first_page = record { events = at_ledger 5 0 (minted "b1") ∷ []; cursor = some "x" }

abbrev last_page : Page
last_page = record { events = at_ledger 3 0 (verified_ "p1") ∷ []; cursor = none }

abbrev server : Server
server contract none = first_page
server contract (some _) = last_page

get_all_events_lem_example :
    get_all_events server 10 ("registry" ∷ "credit" ∷ [])
    ≡ some (
        sort (
          at_ledger 5 0 (minted "b1")
          ∷ at_ledger 3 0 (verified_ "p1")
          ∷ at_ledger 5 0 (minted "b1")
          ∷ at_ledger 3 0 (verified_ "p1")
          ∷ []))
get_all_events_lem_example =
    get_all_events_lem server 10
      (("registry", first_page ∷ last_page ∷ []) ∷ ("credit", first_page ∷ last_page ∷ []) ∷ [])
      ((refl, refl, (refl, refl)), omega arith, ((refl, refl, (refl, refl)), omega arith, tt))
