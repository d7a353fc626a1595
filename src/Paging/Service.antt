-- ===== src/Paging/Service.antt =====
-- One page of a query: the common part of `findAll` of projects, listings and retirements and of
-- `searchProjects`. One row more than a page is asked for, to see whether there are more.
use carbonledger.Base.{
  ℕ, ◌+◌, ltb, min, max, String, Bool, Option, none, some, List, [], ◌∷◌, length, if◌then◌else◌,
}
use carbonledger.Paging.Client.{Client, filter}

pub record Page (V : Type 0) : Type 0 where
  pub items : List V
  pub next_cursor : Option String
  pub total_count : ℕ

module _ {V : Type 0} where
  -- `rows[rows.length - 2]`
  unfoldable pub second_last : List V → Option V
  second_last [] = none
  second_last (x ∷ []) = none
  second_last (x ∷ y ∷ []) = some x
  second_last (x ∷ y ∷ z ∷ rows) = second_last (y ∷ z ∷ rows)

  -- `rows.pop()`
  unfoldable pub pop : List V → List V
  pop [] = []
  pop (x ∷ []) = []
  pop (x ∷ y ∷ rows) = x ∷ pop (y ∷ rows)

module _ {V : Type 0} (id_of : V → String) where
  abbrev pub id_of? : Option V → Option String
  id_of? none = none
  id_of? (some row) = some (id_of row)

  unfoldable pub page_of : ℕ → List V → ℕ → Page V
  unfolding second_last pop
  page_of n rows total_count =
      let has_more = ltb n (length rows) in
      record {
        items = if has_more then pop rows else rows;
        next_cursor = if has_more then id_of? (second_last rows) else none;
        total_count = total_count;
      }

-- `Math.min(Math.max(limit, 1), 100)`, where a negative limit counts as 0.
abbrev pub clamp : ℕ → ℕ
clamp limit = min (max limit 1) 100

module _ {V : Type 0} {id_of : V → String} (client : Client V id_of) where
  -- `searchProjects` and the listings, whose limit the request's validation puts between 1 and 100
  unfoldable pub search : (V → Bool) → ℕ → Option String → Page V
  unfolding page_of
  search where_ limit cursor =
      page_of id_of limit (client.find_many where_ (limit + 1) cursor)
        (length (filter where_ client.table))

  -- `findAll` of the projects and of the retirements
  unfoldable pub find_all : (V → Bool) → ℕ → Option String → Page V
  unfolding search
  find_all where_ limit cursor = search where_ (clamp limit) cursor
