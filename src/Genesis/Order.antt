-- ===== src/Genesis/Order.antt =====
-- backend/src/indexer.ts: the order of the events of all contracts.
use carbonledger.Base.{
  ◌<◌, ◌≤◌, ◌⊎◌, ◌==◌, ◌&&◌, ltb, ℕ, true, false, List, [], ◌∷◌, ◌≡◌, refl, inl, inr, if◌then◌else◌,
  arith, Bool-cases, All,
}
use carbonledger.Genesis.Service.{EventResponse, not_after, insert, sort}

abbrev IsSorted : List EventResponse → Type 0
IsSorted [] = Unit
IsSorted (a ∷ events) = All (λ b. not_after a b ≡ true) events × IsSorted events

-- The order that is meant: by ledger, and by transaction within one.
abbrev pub Precedes : EventResponse → EventResponse → Type 0
Precedes a b = (a.ledger < b.ledger) ⊎ ((a.ledger ≡ b.ledger) × (a.tx_index ≤ b.tx_index))

abbrev pub InOrder : List EventResponse → Type 0
InOrder [] = Unit
InOrder (a ∷ events) = All (Precedes a) events × InOrder events

-- The events of a transaction, in the order in which they stand.
abbrev pub of_transaction : ℕ → ℕ → List EventResponse → List EventResponse
of_transaction ledger tx_index [] = []
of_transaction ledger tx_index (a ∷ events) =
    if (a.ledger == ledger) && (a.tx_index == tx_index)
    then a ∷ of_transaction ledger tx_index events
    else of_transaction ledger tx_index events

not_after-Precedes : (a b : EventResponse) → not_after a b ≡ true → Precedes a b
not_after-Precedes a b h = elim (Bool-cases (ltb a.ledger b.ledger)) [
  | inl earlier ↦ inl (ground (arith, earlier))
  | inr same ↦ inr (ground (arith, h, same), ground (arith, h, same))
]

All-Precedes :
    (a : EventResponse) (events : List EventResponse)
    → All (λ b. not_after a b ≡ true) events
    → All (Precedes a) events
All-Precedes a [] all = tt
All-Precedes a (b ∷ events) (h, all) = (not_after-Precedes a b h, All-Precedes a events all)

IsSorted-InOrder : (events : List EventResponse) → IsSorted events → InOrder events
IsSorted-InOrder [] h = tt
IsSorted-InOrder (a ∷ events) (all, h) = (All-Precedes a events all, IsSorted-InOrder events h)

not_after_total : (a b : EventResponse) → not_after a b ≡ false → not_after b a ≡ true
not_after_total a b h = ground arith

not_after_trans :
    (a b c : EventResponse) → not_after a b ≡ true → not_after b c ≡ true → not_after a c ≡ true
not_after_trans a b c h k = ground arith

All-not_after_trans :
    (a b : EventResponse) (events : List EventResponse)
    → not_after a b ≡ true
    → All (λ c. not_after b c ≡ true) events
    → All (λ c. not_after a c ≡ true) events
All-not_after_trans a b [] h all = tt
All-not_after_trans a b (c ∷ events) h (k, all) =
    (not_after_trans a b c h k, All-not_after_trans a b events h all)

All-insert :
    (a b : EventResponse) (events : List EventResponse)
    → not_after a b ≡ true
    → All (λ c. not_after a c ≡ true) events
    → All (λ c. not_after a c ≡ true) (insert b events)
unfolding insert
All-insert a b [] h all = (h, tt)
All-insert a b (c ∷ events) h (k, all) = elim (Bool-cases (not_after b c)) [
  | inl first ↦ rw first (h, (k, all))
  | inr later ↦ rw later (k, All-insert a b events h all)
]

insert-IsSorted :
    (a : EventResponse) (events : List EventResponse) → IsSorted events → IsSorted (insert a events)
unfolding insert
insert-IsSorted a [] h = (tt, tt)
insert-IsSorted a (b ∷ events) (all, h) = elim (Bool-cases (not_after a b)) [
  | inl first ↦ rw first ((first, All-not_after_trans a b events first all), (all, h))
  | inr later ↦
      rw later (All-insert b a events (not_after_total a b later) all, insert-IsSorted a events h)
]

of_transaction-insert :
    (ledger tx_index : ℕ) (a : EventResponse) (events : List EventResponse)
    → of_transaction ledger tx_index (insert a events) ≡ of_transaction ledger tx_index (a ∷ events)
unfolding insert
of_transaction-insert ledger tx_index a [] = refl
of_transaction-insert ledger tx_index a (b ∷ events) =
    ground (arith, of_transaction-insert ledger tx_index a events)

sort-IsSorted : (events : List EventResponse) → IsSorted (sort events)
unfolding sort
sort-IsSorted [] = tt
sort-IsSorted (a ∷ events) = insert-IsSorted a (sort events) (sort-IsSorted events)

of_transaction-sort :
    (ledger tx_index : ℕ) (events : List EventResponse)
    → of_transaction ledger tx_index (sort events) ≡ of_transaction ledger tx_index events
unfolding sort
of_transaction-sort ledger tx_index [] = refl
of_transaction-sort ledger tx_index (a ∷ events) = ground (
  arith,
  of_transaction-insert ledger tx_index a (sort events),
  of_transaction-sort ledger tx_index events,
)

-- The events of all contracts are put in the order of their ledgers, and of their transactions within
-- one; and every transaction keeps its events, as many as they are and in the order they were fetched.
pub sort_lem :
    (ledger tx_index : ℕ) (events : List EventResponse)
    → InOrder (sort events)
      × (of_transaction ledger tx_index (sort events) ≡ of_transaction ledger tx_index events)
sort_lem ledger tx_index events = (
  IsSorted-InOrder (sort events) (sort-IsSorted events),
  of_transaction-sort ledger tx_index events,
)
