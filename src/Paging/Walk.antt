-- ===== src/Paging/Walk.antt =====
-- A client that follows the cursors sees every row of a query once, in order.
use carbonledger.Base.{
  ℕ, zero, suc, ◌+◌, ◌≤◌, ◌<◌, ltb, String, ◌≡◌, refl, sym, ◌∙◌, ap, Bool, Option, none, some, List,
  [], ◌∷◌, ◌++◌, length, take, drop, arith, Bool-cases, inl, inr,
}
use mathlib.Core.List.{append_assoc}
use mathlib.Core.Option
use carbonledger.Paging.Client.{Client, filter}
use carbonledger.Paging.Service.{Page, second_last, pop, page_of, search, clamp, find_all}

module _ {V : Type 0} where
  -- A list that is longer than a page: what is before the last row of the page, that row, the rest.
  pub record Split (n : ℕ) (rows : List V) : Type 0 where
    pub init : List V
    pub last : V
    pub parts : rows ≡ init ++ last ∷ drop n rows
    pub page : pop (take (suc n) rows) ≡ init ++ last ∷ []
    pub cursor : second_last (take (suc n) rows) ≡ some last

  split : (m : ℕ) (rows : List V) → suc m < length rows → Split (suc m) rows
  unfolding second_last pop
  split m [] h = absurd (omega arith)
  split m (x ∷ []) h = absurd (omega arith)
  split zero (x ∷ y ∷ rows) h = record {
    init = [];
    last = x;
    parts = refl;
    page = refl;
    cursor = refl;
  }
  split (suc m) (x ∷ y ∷ []) h = absurd (omega arith)
  split (suc m) (x ∷ y ∷ z ∷ rows) h =
      let s = split m (y ∷ z ∷ rows) (omega arith) in
      record {
        init = x ∷ s.init;
        last = s.last;
        parts = ap (◌∷◌ x) s.parts;
        page = ap (◌∷◌ x) s.page;
        cursor = s.cursor;
      }

  take-all : (n : ℕ) (rows : List V) → length rows ≤ n → take n rows ≡ rows
  take-all zero [] h = refl
  take-all (suc n) [] h = refl
  take-all zero (x ∷ rows) h = absurd (omega arith)
  take-all (suc n) (x ∷ rows) h = rw (take-all n rows (omega arith))

  length-take-suc : (n : ℕ) (rows : List V) → n < length rows → length (take (suc n) rows) ≡ suc n
  length-take-suc n [] h = absurd (omega arith)
  length-take-suc zero (x ∷ []) h = refl
  length-take-suc zero (x ∷ y ∷ rows) h = refl
  length-take-suc (suc n) (x ∷ rows) h = omega (arith, length-take-suc n rows (omega arith))

  length-drop : (n : ℕ) (rows : List V) → n < length rows → length (drop (suc n) rows) < length rows
  length-drop n [] h = absurd (omega arith)
  length-drop zero (x ∷ rows) h = omega arith
  length-drop (suc n) (x ∷ rows) h = omega (arith, length-drop n rows (omega arith))

  length-take-all : (n : ℕ) (rows : List V) → length rows ≤ n → take (suc n) rows ≡ rows
  length-take-all n rows h = take-all (suc n) rows (omega arith)

module _ {V : Type 0} (id_of : V → String) where
  -- The page of what is left of a query.
  page_of_last :
      (n total : ℕ) (rest : List V)
      → length rest ≤ n
      → page_of id_of n (take (suc n) rest) total
        ≡ record { items = rest; next_cursor = none; total_count = total }
  unfolding page_of
  page_of_last n total rest h = rw (length-take-all n rest h) (ground arith)

  page_of_more :
      (m total : ℕ) (rest : List V) (more : suc m < length rest)
      → page_of id_of (suc m) (take (suc (suc m)) rest) total ≡ (
          let s = split m rest more in
          record {
            items = s.init ++ s.last ∷ [];
            next_cursor = some (id_of s.last);
            total_count = total;
          })
  unfolding page_of
  page_of_more m total rest more =
      let s = split m rest more in
      ground (arith, s.page, s.cursor, length-take-suc (suc m) rest more)

module _ {V : Type 0} where
  -- The rows of one page after another; `none` where the fuel runs out.
  unfoldable pub walk : (Option String → Page V) → ℕ → Option String → Option (List V)
  walk page zero cursor = none
  walk page (suc fuel) cursor = elim (page cursor).next_cursor [
    | none ↦ some (page cursor).items
    | some c ↦ Option.map (◌++◌ (page cursor).items) (walk page fuel (some c))
  ]

  walk_last :
      (page : Option String → Page V) (fuel total : ℕ) (cursor : Option String) (xs : List V)
      → page cursor ≡ record { items = xs; next_cursor = none; total_count = total }
      → walk page (suc fuel) cursor ≡ some xs
  unfolding walk
  walk_last page fuel total cursor xs e = rw (e, walk) (ap (λ p. some p.items) e)

  walk_next :
      (page : Option String → Page V) (fuel total : ℕ) (cursor : Option String) (c : String)
      (xs ys : List V)
      → page cursor ≡ record { items = xs; next_cursor = some c; total_count = total }
      → walk page fuel (some c) ≡ some ys
      → walk page (suc fuel) cursor ≡ some (xs ++ ys)
  unfolding walk
  walk_next page fuel total cursor c xs ys e h = rw (e, walk, h) (ap (λ p. some (p.items ++ ys)) e)

module _ {V : Type 0} {id_of : V → String} (client : Client V id_of) (where_ : V → Bool) where
  abbrev rows : List V
  rows = filter where_ client.table

  -- What is left of the query after a cursor.
  record Left (m : ℕ) (cursor : Option String) (rest : List V) : Type 0 where
    before : List V
    parts : rows ≡ before ++ rest
    asked : client.find_many where_ (suc m + 1) cursor ≡ take (suc (suc m)) rest

  search-Left :
      (m : ℕ) (cursor : Option String) (rest : List V)
      → Left m cursor rest
      → search client where_ (suc m) cursor
        ≡ page_of id_of (suc m) (take (suc (suc m)) rest) (length rows)
  unfolding search
  search-Left m cursor rest l = ap (λ found. page_of id_of (suc m) found (length rows)) l.asked

  next-Left :
      (m : ℕ) (cursor : Option String) (rest : List V) (more : suc m < length rest)
      → Left m cursor rest
      → Left m (some (id_of (split m rest more).last)) (drop (suc m) rest)
  next-Left m cursor rest more l =
      let s = split m rest more in
      let one : suc m + 1 ≡ suc (suc m) = omega arith in
      let parts : rows ≡ (l.before ++ s.init) ++ s.last ∷ drop (suc m) rest =
        l.parts ∙ ap (◌++◌ l.before) s.parts ∙ sym (append_assoc l.before s.init _) in
      record {
        before = (l.before ++ s.init) ++ s.last ∷ [];
        parts = parts ∙ sym (append_assoc (l.before ++ s.init) (s.last ∷ []) _);
        asked =
            client.find_after where_ (suc m + 1) (l.before ++ s.init) (drop (suc m) rest) s.last
              parts
            ∙ ap (λ n. take n (drop (suc m) rest)) one;
      }

  walk_rest :
      (m fuel : ℕ) (cursor : Option String) (rest : List V)
      → Left m cursor rest
      → length rest < fuel
      → walk (search client where_ (suc m)) fuel cursor ≡ some rest
  walk_rest m zero cursor rest l h = absurd (omega arith)
  walk_rest m (suc fuel) cursor rest l h = elim (Bool-cases (ltb (suc m) (length rest))) [
    | inl more ↦
        let more' : suc m < length rest = ground arith in
        let s = split m rest more' in
        let page = search-Left m cursor rest l ∙ page_of_more id_of m (length rows) rest more' in
        let after =
          walk_rest m fuel (some (id_of s.last)) (drop (suc m) rest)
            (next-Left m cursor rest more' l) (omega (arith, length-drop m rest (omega arith))) in
        walk_next (search client where_ (suc m)) fuel (length rows) cursor (id_of s.last)
          (s.init ++ s.last ∷ []) (drop (suc m) rest) page after
        ∙ ap some (append_assoc s.init (s.last ∷ []) (drop (suc m) rest) ∙ sym s.parts)
    | inr last ↦
        walk_last (search client where_ (suc m)) fuel (length rows) cursor rest (
          search-Left m cursor rest l
          ∙ page_of_last id_of (suc m) (length rows) rest (ground arith))
  ]

  first-Left : (m : ℕ) → Left m none rows
  first-Left m =
      let one : suc m + 1 ≡ suc (suc m) = omega arith in
      record {
        before = [];
        parts = refl;
        asked = client.find_first_page where_ (suc m + 1) ∙ ap (λ n. take n rows) one;
      }

  -- A client that follows the cursors of a search with a limit of 1 at least comes to an end, and has
  -- then seen every row of the query once, in order.
  pub search_sees_all :
      (limit fuel : ℕ)
      → 0 < limit
      → length (filter where_ client.table) < fuel
      → walk (search client where_ limit) fuel none ≡ some (filter where_ client.table)
  search_sees_all zero fuel h f = absurd (omega arith)
  search_sees_all (suc m) fuel h f = walk_rest m fuel none rows (first-Left m) f

  -- The same of `findAll`, whatever the limit is.
  pub find_all_sees_all :
      (limit fuel : ℕ)
      → length (filter where_ client.table) < fuel
      → walk (find_all client where_ limit) fuel none ≡ some (filter where_ client.table)
  unfolding find_all
  find_all_sees_all limit fuel f = search_sees_all (clamp limit) fuel (omega arith) f
