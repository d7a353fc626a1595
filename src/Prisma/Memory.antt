-- ===== src/Prisma/Memory.antt =====
-- Tables in memory meet what the model asks of the database client. The witnesses run on them.
use carbonledger.Base.{
  ℕ, ◌+◌, ◌||◌, String, ◌≡◌, refl, ◌≢◌, Bool, true, false, Option, none, some, List, [], ◌∷◌, arith,
  str_eq, if◌then◌else◌, eq_iff, Bool-cases, Option-cases, inl, inr,
}
use carbonledger.Base.Digits.{text_leb}
use carbonledger.Prisma.{Prisma, upserted, counted, counted?}

abbrev pub Entries : Type 0 → Type 0
Entries V = List (String × V)

module _ {V : Type 0} where
  abbrev pub lookup : String → Entries V → Option V
  lookup k [] = none
  lookup k ((j, v) ∷ t) = if str_eq j k then some v else lookup k t

  abbrev pub write : String → V → Entries V → Entries V
  write k v [] = (k, v) ∷ []
  write k v ((j, w) ∷ t) = if str_eq j k then (j, v) ∷ t else (j, w) ∷ write k v t

  abbrev pub create_row : String → V → Entries V → Option (Entries V)
  create_row k v t = elim (lookup k t) [ none ↦ some (write k v t) | some _ ↦ none ]

  abbrev pub update_row : String → (V → V) → Entries V → Option (Entries V)
  update_row k f t = elim (lookup k t) [ none ↦ none | some w ↦ some (write k (f w) t) ]

  abbrev pub upsert_row : String → (V → V) → V → Entries V → Entries V
  upsert_row k f v t = write k (upserted (lookup k t) f v) t

  -- The first listed key whose row passes the test.
  abbrev pub scan : (V → Bool) → Entries V → Entries V → Option V
  scan p t [] = none
  scan p t ((k, _) ∷ keys) =
      let rest = scan p t keys in
      elim (lookup k t) [ none ↦ rest | some v ↦ if p v then some v else rest ]

  pub lookup-write_self : (k : String) (v : V) (t : Entries V) → lookup k (write k v t) ≡ some v
  lookup-write_self k v [] = ground (arith, eq_iff k k)
  lookup-write_self k v ((j, w) ∷ t) = ground (arith, eq_iff j k, lookup-write_self k v t)

  pub lookup-write_ne :
      (j k : String) (v : V) (t : Entries V) → j ≢ k → lookup j (write k v t) ≡ lookup j t
  lookup-write_ne j k v [] ne = ground (arith, eq_iff k j)
  lookup-write_ne j k v ((i, w) ∷ t) ne =
      ground (arith, eq_iff i k, eq_iff i j, lookup-write_ne j k v t ne)

  pub create_row_taken :
      {w : V} (k : String) (v : V) (t : Entries V) → lookup k t ≡ some w → create_row k v t ≡ none
  create_row_taken k v t e = rw (e, create_row)

  pub create_row_free :
      (k : String) (v : V) (t : Entries V)
      → lookup k t ≡ none
      → create_row k v t ≡ some (upsert_row k (λ row. row) v t)
  create_row_free k v t e = rw (e, create_row)

  pub update_row_missing :
      (k : String) (f : V → V) (t : Entries V) → lookup k t ≡ none → update_row k f t ≡ none
  update_row_missing k f t e = rw (e, update_row)

  pub update_row_found :
      {w : V} (k : String) (f : V → V) (t : Entries V)
      → lookup k t ≡ some w
      → update_row k f t ≡ some (upsert_row k f w t)
  update_row_found k f t e = rw (e, update_row)

  pub scan-eq-some :
      {w : V} (p : V → Bool) (t keys : Entries V)
      → scan p t keys ≡ some w
      → (k : String) × (lookup k t ≡ some w) × (p w ≡ true)
  scan-eq-some p t [] e = cc
  scan-eq-some p t ((k, x) ∷ keys) e = elim (Option-cases (lookup k t)) [
    | inl missing ↦ scan-eq-some p t keys (rw (missing, scan) at e)
    | inr (v, found) ↦ elim (Bool-cases (p v)) [
      | inl passes ↦ (k, ground arith, ground arith)
      | inr fails ↦ scan-eq-some p t keys (ground arith)
    ]
  ]

  pub scan-eq-none :
      {w : V} (p : V → Bool) (k : String) (t keys : Entries V) {x : V}
      → scan p t keys ≡ none
      → lookup k t ≡ some w
      → lookup k keys ≡ some x
      → p w ≡ false
  scan-eq-none p k t [] e found listed = cc
  scan-eq-none {w} p k t ((j, y) ∷ keys) {x} e found listed = elim (Bool-cases (p w)) [
    | inl passes ↦ ground (arith, eq_iff j k, scan-eq-none {w = w} p k t keys {x = x})
    | inr fails ↦ fails
  ]

abbrev pub is_listed : String → List String → Bool
is_listed k [] = false
is_listed k (j ∷ keys) = str_eq j k || is_listed k keys

module _ {V : Type 0} (p : V → Bool) (m : V → ℕ) where
  -- The sum over the first entry of each key.
  abbrev pub sum_from : List String → Entries V → ℕ
  sum_from seen [] = 0
  sum_from seen ((k, v) ∷ t) =
      (if is_listed k seen then 0 else counted p m v) + sum_from (k ∷ seen) t

  sum_from-write_listed :
      (k : String) (v : V) (seen : List String) (t : Entries V)
      → is_listed k seen ≡ true
      → sum_from seen (write k v t) ≡ sum_from seen t
  sum_from-write_listed k v seen [] h = rw h (omega arith)
  sum_from-write_listed k v seen ((j, w) ∷ t) h =
      ground (arith, eq_iff j k, sum_from-write_listed k v (j ∷ seen) t)

  pub sum_from-write :
      (k : String) (v : V) (seen : List String) (t : Entries V)
      → is_listed k seen ≡ false
      → sum_from seen (write k v t) + counted? p m (lookup k t) ≡ sum_from seen t + counted p m v
  sum_from-write k v seen [] h = rw h (omega arith)
  sum_from-write k v seen ((j, w) ∷ t) h =
      ground (arith, eq_iff j k, sum_from-write k v (j ∷ seen) t)

abbrev pub memory : Prisma
memory = record {
  Rows = Entries;
  find_unique = lookup;
  find_first = λ p t. scan p t t;
  create = create_row;
  update = update_row;
  upsert = upsert_row;
  sum = λ p m. sum_from p m [];
  sum-upsert = λ p m k f v t. sum_from-write p m k _ [] t refl;
  create_taken = create_row_taken;
  create_free = create_row_free;
  update_missing = update_row_missing;
  update_found = update_row_found;
  find-upsert_self = λ k f v t. lookup-write_self k _ t;
  find-upsert_ne = λ j k f v t. lookup-write_ne j k _ t;
  find_first_some = λ p t. scan-eq-some p t t;
  find_first_none = λ p k t e found. scan-eq-none p k t t e found found;
  text_lte = text_leb;
  text_lte_digits = λ s t hs ht. refl;
}
