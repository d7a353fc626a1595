-- ===== src/Frontend/CartLaws.antt =====
-- frontend/lib/use-cart-store.ts: one item for each listing, a storage that follows the state, and
-- the totals.
use carbonledger.Base.{
  ℕ, ◌+◌, String, true, false, ◌||◌, List, [], ◌∷◌, ◌++◌, ◌≡◌, refl, inl, inr, eq_iff,
  if◌then◌else◌, arith, Bool-cases,
}
use carbonledger.Frontend.Cart.{
  Listing, CartItem, Store, load_cart, is_of, holds, replace_first, added, removed, mount, add_item,
  remove_item, clear_cart, total_tonnes,
}

-- No two items are of one listing.
abbrev pub IsSingle : List CartItem → Type 0
IsSingle [] = Unit
IsSingle (item ∷ items) = (holds item.listing.listing_id items ≡ false) × IsSingle items

-- The items of a cart are single, and a page that is loaded next shows the same cart.
pub record IsKept (s : Store) : Type 0 where
  pub single : IsSingle s.items
  pub persisted : load_cart s.stored ≡ s.items

-- What a user does.
pub data Click : Type 0 where
  add : Listing → ℕ → Click
  remove : String → Click
  clear reload : Click

unfoldable pub click : Click → Store → Store
unfolding mount add_item remove_item clear_cart
click (add listing amount) s = add_item listing amount s
click (remove id) s = remove_item id s
click clear s = clear_cart s
click reload s = mount s.stored

holds-replace_first :
    (id j : String) (amount : ℕ) (items : List CartItem)
    → holds j (replace_first id amount items) ≡ holds j items
unfolding replace_first
holds-replace_first id j amount [] = refl
holds-replace_first id j amount (item ∷ items) =
    ground (arith, holds-replace_first id j amount items)

replace_first-IsSingle :
    (id : String) (amount : ℕ) (items : List CartItem)
    → IsSingle items
    → IsSingle (replace_first id amount items)
unfolding replace_first
replace_first-IsSingle id amount [] h = tt
replace_first-IsSingle id amount (item ∷ items) (apart, h) = elim (Bool-cases (is_of id item)) [
  | inl own ↦ rw own (apart, h)
  | inr other ↦ rw other (
    ground (arith, holds-replace_first id item.listing.listing_id amount items),
    replace_first-IsSingle id amount items h,
  )
]

holds-append :
    (j : String) (items : List CartItem) (last : CartItem)
    → holds j (items ++ last ∷ []) ≡ holds j items || is_of j last
holds-append j [] last = ground arith
holds-append j (item ∷ items) last = ground (arith, holds-append j items last)

append-IsSingle :
    (items : List CartItem) (last : CartItem)
    → IsSingle items
    → holds last.listing.listing_id items ≡ false
    → IsSingle (items ++ last ∷ [])
append-IsSingle [] last h new = (refl, tt)
append-IsSingle (item ∷ items) last (apart, h) new = (
  ground (
    arith,
    holds-append item.listing.listing_id items last,
    eq_iff item.listing.listing_id last.listing.listing_id,
    eq_iff last.listing.listing_id item.listing.listing_id,
  ),
  append-IsSingle items last h (ground arith),
)

holds-removed :
    (id j : String) (items : List CartItem)
    → holds j items ≡ false
    → holds j (removed id items) ≡ false
unfolding removed
holds-removed id j [] h = refl
holds-removed id j (item ∷ items) h = ground (arith, holds-removed id j items)

removed-IsSingle :
    (id : String) (items : List CartItem) → IsSingle items → IsSingle (removed id items)
unfolding removed
removed-IsSingle id [] h = tt
removed-IsSingle id (item ∷ items) (apart, h) = elim (Bool-cases (is_of id item)) [
  | inl own ↦ rw own (removed-IsSingle id items h)
  | inr other ↦
      rw other (holds-removed id item.listing.listing_id items apart, removed-IsSingle id items h)
]

added-IsSingle :
    (listing : Listing) (amount : ℕ) (items : List CartItem)
    → IsSingle items
    → IsSingle (added listing amount items)
unfolding added
added-IsSingle listing amount items h = elim (Bool-cases (holds listing.listing_id items)) [
  | inl there ↦ rw there (replace_first-IsSingle listing.listing_id amount items h)
  | inr new ↦ rw new (append-IsSingle items (record { listing = listing; amount = amount }) h new)
]

-- Whatever a user does, a cart has one item at most for each listing, and a page that is loaded next
-- shows the same items.
pub click-IsKept : (c : Click) (s : Store) → IsKept s → IsKept (click c s)
unfolding click mount add_item remove_item clear_cart load_cart
click-IsKept (add listing amount) s k = record {
  single = added-IsSingle listing amount s.items k.single;
  persisted = refl;
}
click-IsKept (remove id) s k = record {
  single = removed-IsSingle id s.items k.single;
  persisted = refl;
}
click-IsKept clear s k = record { single = tt; persisted = refl }
click-IsKept reload s k = record { single = rw k.persisted k.single; persisted = refl }

-- The amount that a cart holds of a listing.
unfoldable pub amount_of : String → List CartItem → ℕ
amount_of id [] = 0
amount_of id (item ∷ items) = if is_of id item then item.amount else amount_of id items

amount_of-replace_first :
    (id : String) (amount : ℕ) (items : List CartItem)
    → holds id items ≡ true
    → total_tonnes (replace_first id amount items) + amount_of id items
      ≡ total_tonnes items + amount
unfolding replace_first amount_of total_tonnes
amount_of-replace_first id amount [] h = cc
amount_of-replace_first id amount (item ∷ items) h =
    ground (arith, amount_of-replace_first id amount items)

amount_of-append :
    (id : String) (items : List CartItem) (last : CartItem)
    → holds id items ≡ false
    → (amount_of id items ≡ 0)
      × (total_tonnes (items ++ last ∷ []) ≡ total_tonnes items + last.amount)
unfolding amount_of total_tonnes
amount_of-append id [] last h = (refl, omega arith)
amount_of-append id (item ∷ items) last h =
    let (zero_, total) = amount_of-append id items last (ground arith) in
    (ground (arith, zero_), ground (arith, total))

-- To add a listing puts the amount in place of the one that the cart held of it, none included.
pub added-total_tonnes :
    (listing : Listing) (amount : ℕ) (items : List CartItem)
    → total_tonnes (added listing amount items) + amount_of listing.listing_id items
      ≡ total_tonnes items + amount
unfolding added
added-total_tonnes listing amount items = elim (Bool-cases (holds listing.listing_id items)) [
  | inl there ↦ ground (arith, amount_of-replace_first listing.listing_id amount items there)
  | inr new ↦ ground (
    arith,
    amount_of-append listing.listing_id items (record { listing = listing; amount = amount }) new,
  )
]
