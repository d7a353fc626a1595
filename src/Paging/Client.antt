-- ===== src/Paging/Client.antt =====
-- `findMany` of the database client, for rows with a unique `id`. Prisma is not part of the
-- repository, so the call is a parameter, with its documented behaviour on cursors.
use carbonledger.Base.{
  ℕ, zero, suc, String, ◌≡◌, refl, Bool, false, ◌||◌, Option, none, some, List, [], ◌∷◌, ◌++◌, take,
  str_eq, if◌then◌else◌, eq_iff, arith,
}

module _ {V : Type 0} where
  -- The rows that a `where` takes, in their order.
  abbrev pub filter : (V → Bool) → List V → List V
  filter where_ [] = []
  filter where_ (row ∷ rows) =
      let rest = filter where_ rows in if where_ row then row ∷ rest else rest

  abbrev pub is_id_in : (V → String) → String → List V → Bool
  is_id_in id_of c [] = false
  is_id_in id_of c (row ∷ rows) = str_eq (id_of row) c || is_id_in id_of c rows

  -- The identifiers differ.
  abbrev pub IsUnique : (V → String) → List V → Type 0
  IsUnique id_of [] = Unit
  IsUnique id_of (row ∷ rows) = (is_id_in id_of (id_of row) rows ≡ false) × IsUnique id_of rows

-- One query's table, in the order that the query asks for. `find_many where_ n cursor` is the call
-- with `take: n`, and with `skip: 1` where there is a cursor.
pub record Client (V : Type 0) (id_of : V → String) : Type 0 where
  pub table : List V
  pub unique : IsUnique id_of table
  pub find_many : (V → Bool) → ℕ → Option String → List V
  pub find_first_page :
      (where_ : V → Bool) (n : ℕ) → find_many where_ n none ≡ take n (filter where_ table)
  pub find_after :
      (where_ : V → Bool) (n : ℕ) (before after : List V) (row : V)
      → filter where_ table ≡ before ++ row ∷ after
      → find_many where_ n (some (id_of row)) ≡ take n after
  pub find_missing :
      (where_ : V → Bool) (n : ℕ) (c : String)
      → is_id_in id_of c table ≡ false
      → find_many where_ n (some c) ≡ []

-- A table in memory.
module _ {V : Type 0} (id_of : V → String) where
  abbrev pub after_id : String → List V → List V
  after_id c [] = []
  after_id c (row ∷ rows) = if str_eq (id_of row) c then rows else after_id c rows

  abbrev pub query : List V → (V → Bool) → ℕ → Option String → List V
  query table where_ n none = take n (filter where_ table)
  query table where_ n (some c) = take n (after_id c (filter where_ table))

  pub after_id-missing :
      (where_ : V → Bool) (c : String) (rows : List V)
      → is_id_in id_of c rows ≡ false
      → (after_id c (filter where_ rows) ≡ []) × (is_id_in id_of c (filter where_ rows) ≡ false)
  after_id-missing where_ c [] h = (refl, refl)
  after_id-missing where_ c (row ∷ rows) h =
      let (tail, out) = after_id-missing where_ c rows (ground arith) in
      (ground (arith, tail, out), ground (arith, tail, out))

  pub filter-IsUnique :
      (where_ : V → Bool) (rows : List V)
      → IsUnique id_of rows
      → IsUnique id_of (filter where_ rows)
  filter-IsUnique where_ [] u = tt
  filter-IsUnique where_ (row ∷ rows) (apart, u) =
      let out = after_id-missing where_ (id_of row) rows apart in
      let rest = filter-IsUnique where_ rows u in ground (arith, out, rest)

  not_in-append :
      (c : String) (before after : List V) (row : V)
      → is_id_in id_of c (before ++ row ∷ after) ≡ false
      → str_eq (id_of row) c ≡ false
  not_in-append c [] after row h = ground arith
  not_in-append c (x ∷ before) after row h = not_in-append c before after row (ground arith)

  pub after_id-append :
      (before after : List V) (row : V)
      → IsUnique id_of (before ++ row ∷ after)
      → after_id (id_of row) (before ++ row ∷ after) ≡ after
  after_id-append [] after row u = ground (arith, eq_iff (id_of row) (id_of row))
  after_id-append (x ∷ before) after row (apart, u) = ground (
    arith,
    after_id-append before after row u,
    not_in-append (id_of x) before after row apart,
    eq_iff (id_of x) (id_of row),
    eq_iff (id_of row) (id_of x),
  )

  pub take-nil : (n : ℕ) → take {A = V} n [] ≡ []
  take-nil zero = refl
  take-nil (suc n) = refl

  abbrev pub in_memory : (table : List V) → IsUnique id_of table → Client V id_of
  in_memory table u = record {
    table = table;
    unique = u;
    find_many = query table;
    find_first_page = λ where_ n. refl;
    find_after = λ where_ n before after row e.
        let kept = filter-IsUnique where_ table u in
        rw (e, after_id-append before after row (rw e at kept)) refl;
    find_missing = λ where_ n c h. rw ((after_id-missing where_ c table h).0) (take-nil n);
  }
