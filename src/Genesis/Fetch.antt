-- ===== src/Genesis/Fetch.antt =====
-- backend/src/indexer.ts: the pages of events of all contracts. A fetch is on fuel, a page for each
-- unit; `none` is a fetch that has run out of it.
use carbonledger.Base.{
  ℕ, zero, suc, ◌≤◌, String, true, false, Option, none, some, List, [], ◌∷◌, ◌++◌, ◌≡◌, refl, arith,
  length, if◌then◌else◌,
}
use mathlib.Core.List.{append_assoc, append-nil}
use carbonledger.Webhook.Processor.{is_falsy}
use carbonledger.Genesis.Service.{EventResponse, sort}

pub record Page : Type 0 where
  pub events : List EventResponse
  pub cursor : Option String

-- `server.getEvents` for a contract and a cursor
abbrev pub Server : Type 0
Server = String → Option String → Page

module _ (server : Server) where
  -- The loop over the pages of a contract.
  unfoldable pub fetch :
      ℕ → String → Option String → List EventResponse → Option (List EventResponse)
  fetch zero contract cursor all = none
  fetch (suc fuel) contract cursor all =
      let page = server contract cursor in
      let rest = fetch fuel contract page.cursor (all ++ page.events) in
      if is_falsy page.cursor then some (all ++ page.events) else rest

  -- The loop over the contracts.
  unfoldable pub fetch_each : ℕ → List String → List EventResponse → Option (List EventResponse)
  unfolding fetch
  fetch_each fuel [] all = some all
  fetch_each fuel (contract ∷ contracts) all = elim (fetch fuel contract none all) [
    | none ↦ none
    | some all' ↦ fetch_each fuel contracts all'
  ]

  abbrev pub sorted : Option (List EventResponse) → Option (List EventResponse)
  sorted none = none
  sorted (some events) = some (sort events)

  unfoldable pub get_all_events : ℕ → List String → Option (List EventResponse)
  unfolding fetch_each
  get_all_events fuel contracts = sorted (fetch_each fuel contracts [])

  -- The server has these pages for a contract from a cursor on.
  abbrev pub Serves : String → Option String → List Page → Type 0
  Serves contract cursor [] = ⊥
  Serves contract cursor (page ∷ []) =
      (server contract cursor ≡ page) × (is_falsy page.cursor ≡ true)
  Serves contract cursor (page ∷ next ∷ pages) =
      (server contract cursor ≡ page)
      × (is_falsy page.cursor ≡ false)
      × Serves contract page.cursor (next ∷ pages)

  abbrev pub events_of : List Page → List EventResponse
  events_of [] = []
  events_of (page ∷ pages) = page.events ++ events_of pages

  -- The pages of each contract, of which none has more than the fuel.
  abbrev pub ServesEach : ℕ → List (String × List Page) → Type 0
  ServesEach fuel [] = Unit
  ServesEach fuel ((contract, pages) ∷ rest) =
      Serves contract none pages × (length pages ≤ fuel) × ServesEach fuel rest

  abbrev pub contracts_of : List (String × List Page) → List String
  contracts_of [] = []
  contracts_of ((contract, _) ∷ rest) = contract ∷ contracts_of rest

  abbrev pub all_of : List (String × List Page) → List EventResponse
  all_of [] = []
  all_of ((_, pages) ∷ rest) = events_of pages ++ all_of rest

  pub fetch_lem :
      (fuel : ℕ) (contract : String) (cursor : Option String) (pages : List Page)
      (all : List EventResponse)
      → Serves contract cursor pages
      → length pages ≤ fuel
      → fetch fuel contract cursor all ≡ some (all ++ events_of pages)
  unfolding fetch
  fetch_lem zero contract cursor (page ∷ pages) all s h = absurd (omega arith)
  fetch_lem fuel contract cursor [] all s h = absurd s
  fetch_lem (suc fuel) contract cursor (page ∷ []) all (here, last) h =
      ground (arith, append-nil page.events)
  fetch_lem (suc fuel) contract cursor (page ∷ next ∷ pages) all (here, more, rest) h = ground (
    arith,
    fetch_lem fuel contract page.cursor (next ∷ pages) (all ++ page.events) rest,
    append_assoc all page.events (events_of (next ∷ pages)),
  )

  fetch_each_lem :
      (fuel : ℕ) (served : List (String × List Page)) (all : List EventResponse)
      → ServesEach fuel served
      → fetch_each fuel (contracts_of served) all ≡ some (all ++ all_of served)
  unfolding fetch_each
  fetch_each_lem fuel [] all s = ground (arith, append-nil all)
  fetch_each_lem fuel ((contract, pages) ∷ rest) all (here, enough, s) = ground (
    arith,
    fetch_lem fuel contract none pages all here enough,
    fetch_each_lem fuel rest (all ++ events_of pages) s,
    append_assoc all (events_of pages) (all_of rest),
  )

  -- With fuel for the pages that the server has for each contract, the fetch ends, and it gives the
  -- events of all pages of all contracts, sorted.
  pub get_all_events_lem :
      (fuel : ℕ) (served : List (String × List Page))
      → ServesEach fuel served
      → get_all_events fuel (contracts_of served) ≡ some (sort (all_of served))
  unfolding get_all_events
  get_all_events_lem fuel served s = rw (fetch_each_lem fuel served [] s) refl
