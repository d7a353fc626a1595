-- ===== src/Frontend/Cart.antt =====
-- frontend/lib/use-cart-store.ts. A price is the number of stroops that its text gives, and a cart
-- in the storage of the browser is the list that is written there.
use carbonledger.Base.{
  ℕ, ◌+◌, ◌*◌, ◌/◌, String, Bool, false, ◌||◌, Option, none, some, List, [], ◌∷◌, ◌++◌, str_eq,
  if◌then◌else◌,
}

pub record Listing : Type 0 where
  pub listing_id : String
  pub price_per_credit : ℕ

pub record CartItem : Type 0 where
  pub listing : Listing
  pub amount : ℕ

-- The hook's state and what is stored under its key.
pub record Store : Type 0 where
  pub items : List CartItem
  pub stored : Option (List CartItem)

unfoldable pub load_cart : Option (List CartItem) → List CartItem
load_cart none = []
load_cart (some items) = items

abbrev pub is_of : String → CartItem → Bool
is_of id item = str_eq item.listing.listing_id id

abbrev pub holds : String → List CartItem → Bool
holds id [] = false
holds id (item ∷ items) = is_of id item || holds id items

-- `prev.map` with the first item of the listing replaced: the others keep their places.
unfoldable pub replace_first : String → ℕ → List CartItem → List CartItem
replace_first id amount [] = []
replace_first id amount (item ∷ items) =
    if is_of id item
    then record item { amount = amount } ∷ items
    else item ∷ replace_first id amount items

unfoldable pub added : Listing → ℕ → List CartItem → List CartItem
unfolding replace_first
added listing amount prev =
    if holds listing.listing_id prev
    then replace_first listing.listing_id amount prev
    else prev ++ record { listing = listing; amount = amount } ∷ []

unfoldable pub removed : String → List CartItem → List CartItem
removed id [] = []
removed id (item ∷ items) = if is_of id item then removed id items else item ∷ removed id items

abbrev pub save : List CartItem → Store
save next = record { items = next; stored = some next }

unfoldable pub mount : Option (List CartItem) → Store
unfolding load_cart
mount stored = record { items = load_cart stored; stored = stored }

unfoldable pub add_item : Listing → ℕ → Store → Store
unfolding added
add_item listing amount s = save (added listing amount s.items)

unfoldable pub remove_item : String → Store → Store
unfolding removed
remove_item id s = save (removed id s.items)

unfoldable pub clear_cart : Store → Store
clear_cart s = record { items = []; stored = none }

unfoldable pub total_tonnes : List CartItem → ℕ
total_tonnes [] = 0
total_tonnes (item ∷ items) = item.amount + total_tonnes items

unfoldable pub subtotal_stroops : List CartItem → ℕ
subtotal_stroops [] = 0
subtotal_stroops (item ∷ items) =
    item.listing.price_per_credit * item.amount + subtotal_stroops items

abbrev pub protocol_fee_stroops : List CartItem → ℕ
protocol_fee_stroops items = subtotal_stroops items / 100

abbrev pub total_stroops : List CartItem → ℕ
total_stroops items = subtotal_stroops items + protocol_fee_stroops items
