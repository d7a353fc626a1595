-- ===== src/Prisma.antt =====
-- The database client. Prisma is not part of the repository, so its tables are a parameter of the
-- model: the operations that the services call, with the documented behaviour that they rely on.
pub mod Memory
use carbonledger.Base.{
  ◌+◌, if◌then◌else◌, ℕ, String, ◌≡◌, ◌≢◌, Bool, true, false, Option, none, some, List,
}
use carbonledger.Base.Digits.{all_digits, text_leb}

-- What `upsert` leaves in the row of its key.
abbrev pub upserted : {V : Type 0} → Option V → (V → V) → V → V
upserted none change fresh = fresh
upserted (some row) change fresh = change row

-- What a row adds to a sum over the rows that pass a test.
abbrev pub counted : {V : Type 0} → (V → Bool) → (V → ℕ) → V → ℕ
counted where_ column row = if where_ row then column row else 0

abbrev pub counted? : {V : Type 0} → (V → Bool) → (V → ℕ) → Option V → ℕ
counted? where_ column none = 0
counted? where_ column (some row) = counted where_ column row

-- Tables of rows with a unique text key. `none` from `create` is the error P2002 (the key is
-- taken), and from `update` it is P2025 (there is no such row).
pub record Prisma : Type 1 where
  pub Rows : Type 0 → Type 0
  pub find_unique : {V : Type 0} → String → Rows V → Option V
  pub find_first : {V : Type 0} → (V → Bool) → Rows V → Option V
  pub create : {V : Type 0} → String → V → Rows V → Option (Rows V)
  pub update : {V : Type 0} → String → (V → V) → Rows V → Option (Rows V)
  pub upsert : {V : Type 0} → String → (V → V) → V → Rows V → Rows V
  pub sum : {V : Type 0} → (V → Bool) → (V → ℕ) → Rows V → ℕ
  pub create_taken :
      {V : Type 0} {row : V} (k : String) (v : V) (t : Rows V)
      → find_unique k t ≡ some row
      → create k v t ≡ none
  pub create_free :
      {V : Type 0} (k : String) (v : V) (t : Rows V)
      → find_unique k t ≡ none
      → create k v t ≡ some (upsert k (λ row. row) v t)
  pub update_missing :
      {V : Type 0} (k : String) (f : V → V) (t : Rows V)
      → find_unique k t ≡ none
      → update k f t ≡ none
  pub update_found :
      {V : Type 0} {row : V} (k : String) (f : V → V) (t : Rows V)
      → find_unique k t ≡ some row
      → update k f t ≡ some (upsert k f row t)
  pub find-upsert_self :
      {V : Type 0} (k : String) (f : V → V) (v : V) (t : Rows V)
      → find_unique k (upsert k f v t) ≡ some (upserted (find_unique k t) f v)
  pub find-upsert_ne :
      {V : Type 0} (j k : String) (f : V → V) (v : V) (t : Rows V)
      → j ≢ k
      → find_unique j (upsert k f v t) ≡ find_unique j t
  pub find_first_some :
      {V : Type 0} {row : V} (where_ : V → Bool) (t : Rows V)
      → find_first where_ t ≡ some row
      → (k : String) × (find_unique k t ≡ some row) × (where_ row ≡ true)
  pub find_first_none :
      {V : Type 0} {row : V} (where_ : V → Bool) (k : String) (t : Rows V)
      → find_first where_ t ≡ none
      → find_unique k t ≡ some row
      → where_ row ≡ false
  -- `lte` on text columns follows the collation of the database, which puts digits in their order.
  pub text_lte : List ℕ → List ℕ → Bool
  pub text_lte_digits :
      (s t : List ℕ) → all_digits s ≡ true → all_digits t ≡ true → text_lte s t ≡ text_leb s t
  -- `aggregate` counts each row once.
  pub sum-upsert :
      {V : Type 0} (where_ : V → Bool) (column : V → ℕ) (k : String) (f : V → V) (v : V)
      (t : Rows V)
      → sum where_ column (upsert k f v t) + counted? where_ column (find_unique k t)
        ≡ sum where_ column t + counted where_ column (upserted (find_unique k t) f v)
