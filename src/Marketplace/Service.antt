-- ===== src/Marketplace/Service.antt =====
-- backend/src/marketplace: marketplace.service.ts with marketplace-contract.service.ts,
-- listings-cache.service.ts, and the owner's check of marketplace.controller.ts. The contract calls
-- are the stubs of the repository. The text of the clock and the random hash are arguments.
use carbonledger.Base.{
  ℕ, String, Bool, true, false, not, ◌&&◌, Option, none, some, List, [], ◌∷◌, length, ltb, str_eq,
  if◌then◌else◌,
}
use carbonledger.Base.Int.{ℤ, pos, ◌-ℤ◌, ltb_ℤ, eqb_ℤ}
use Prim.Native.String
use carbonledger.Prisma.{Prisma}
use carbonledger.Schema.{
  MarketListing, ListingStatus, active, partially_filled, sold, delisted, Role, admin, Db,
}
use carbonledger.Action.{
  Action, ◌>>=◌, ◌>>◌, pure, throw_if, or_throw, gets, modify, not_found, bad_request, forbidden,
}
use carbonledger.Tables.{listings, find_unique, create, update}

pub record CreateListingDto : Type 0 where
  pub listing_id : String
  pub project_id : String
  pub credit_batch_id : String
  pub amount : ℤ
  pub price_per_tonne : String
  pub vintage_year : ℕ
  pub seller : String

pub record PurchaseDto : Type 0 where
  pub listing_id : String
  pub amount : ℤ

pub record PurchaseResult : Type 0 where
  pub tx_hash : String
  pub batch_id : String
  pub amount : ℤ

-- A page as `findAll` returns it.
pub record Page : Type 0 where
  pub listings : List MarketListing
  pub next_cursor : Option String
  pub total_count : ℕ

-- The service's state: the database, and what Redis holds under each query's key.
pub record Market (prisma : Prisma) : Type 0 where
  pub db : Db prisma
  pub cached : String → Option Page

abbrev pub new_listing : CreateListingDto → MarketListing
new_listing dto = record {
  listing_id = dto.listing_id;
  project_id = dto.project_id;
  batch_id = dto.credit_batch_id;
  seller = dto.seller;
  amount_available = dto.amount;
  price_per_credit = dto.price_per_tonne;
  vintage_year = dto.vintage_year;
  status = active;
}

-- `["Active", "PartiallyFilled"].includes(status)`
abbrev pub is_available : ListingStatus → Bool
is_available active = true
is_available partially_filled = true
is_available _ = false

abbrev pub is_admin : Role → Bool
is_admin admin = true
is_admin _ = false

abbrev pub with_listing_status : ListingStatus → MarketListing → MarketListing
with_listing_status status listing = record listing { status = status }

-- The data of the update in `purchase`.
abbrev pub bought : ℤ → MarketListing → MarketListing
bought amount listing =
    let new_amount = listing.amount_available -ℤ amount in
    record listing {
      amount_available = new_amount;
      status = if eqb_ℤ new_amount (pos 0) then sold else partially_filled;
    }

-- The update writes the values that were computed from the listing as it was read.
abbrev pub write_purchase : ℤ → MarketListing → MarketListing → MarketListing
write_purchase amount read listing = record listing {
  amount_available = (bought amount read).amount_available;
  status = (bought amount read).status;
}

module _ {prisma : Prisma} where
  abbrev pub on_db : {A : Type 0} → Action (Db prisma) A → Action (Market prisma) A
  on_db m s = let (r, db) = m s.db in (r, record s { db = db })

  -- `verifyCreditBatchOwnership`, which stands for a contract read and always answers `true`.
  unfoldable pub verify_credit_batch_ownership : String → String → Action (Market prisma) Bool
  verify_credit_batch_ownership batch_id seller = pure true

  -- `listCredits` and `delistCredits` answer a made-up hash.
  unfoldable pub contract_tx : String → String → Action (Market prisma) String
  contract_tx now listing_id =
      pure (String.◌++◌ "tx_" (String.◌++◌ now (String.◌++◌ "_" listing_id)))

  -- `ListingsCacheService.set`, `get` and `invalidateAll`, on a server that answers.
  unfoldable pub cache_set : String → Page → Action (Market prisma) (Unit {0})
  cache_set key page =
      modify (λ s. record s { cached = λ k. if str_eq k key then some page else s.cached k })

  unfoldable pub cache_get : String → Action (Market prisma) (Option Page)
  cache_get key = gets (λ s. s.cached key)

  unfoldable pub invalidate_all : Action (Market prisma) (Unit {0})
  invalidate_all = modify (λ s. record s { cached = λ k. none })

module _ (prisma : Prisma) where
  unfoldable pub find_one : String → Action (Market prisma) MarketListing
  unfolding find_unique
  find_one listing_id = do
    l ← on_db (find_unique (listings prisma) listing_id)
    or_throw l (not_found "Listing not found")

  -- `findAll`: `run_query` is the pair of database queries for the query with that key.
  unfoldable pub find_all :
      (String → prisma.Rows MarketListing → Page) → String → Action (Market prisma) Page
  unfolding cache_get cache_set
  find_all run_query cache_key = do
    hit ← cache_get cache_key
    elim hit [
      | some page ↦ pure page
      | none ↦ do
        result ← gets (λ s. run_query cache_key s.db.listings)
        cache_set cache_key result
        pure result
    ]

  unfoldable pub create_listing : CreateListingDto → String → Action (Market prisma) String
  unfolding verify_credit_batch_ownership contract_tx create invalidate_all
  create_listing dto now = do
    owns_batch ← verify_credit_batch_ownership dto.credit_batch_id dto.seller
    throw_if (not owns_batch) (forbidden "You do not own the specified credit batch")
    tx_hash ← contract_tx now dto.listing_id
    on_db (create (listings prisma) dto.listing_id (new_listing dto))
    invalidate_all
    pure tx_hash

  unfoldable pub delist_listing : String → String → Action (Market prisma) String
  unfolding find_one contract_tx update invalidate_all
  delist_listing listing_id now = do
    find_one listing_id
    tx_hash ← contract_tx now listing_id
    on_db (update (listings prisma) listing_id (with_listing_status delisted))
    invalidate_all
    pure tx_hash

  -- `MarketplaceController.delist`
  unfoldable pub delist : String → String → Role → String → Action (Market prisma) String
  unfolding find_one delist_listing
  delist listing_id caller role now = do
    listing ← find_one listing_id
    throw_if (not (str_eq listing.seller caller) && not (is_admin role))
        (forbidden "You can only delist your own listings")
    delist_listing listing_id now

  unfoldable pub purchase : PurchaseDto → String → Action (Market prisma) PurchaseResult
  unfolding find_one update
  purchase dto tx_hash = do
    listing ← find_one dto.listing_id
    throw_if (not (is_available listing.status)) (bad_request "Listing is not available")
    throw_if (ltb_ℤ listing.amount_available dto.amount)
        (bad_request "Insufficient credits in listing")
    on_db (update (listings prisma) dto.listing_id (write_purchase dto.amount listing))
    pure (record { tx_hash = tx_hash; batch_id = listing.batch_id; amount = dto.amount })

  -- The loop of `bulkPurchase`: each purchase with its hash, in order, until one throws.
  unfoldable pub purchase_each :
      List (PurchaseDto × String) → Action (Market prisma) (List PurchaseResult)
  purchase_each [] = pure []
  purchase_each ((dto, tx_hash) ∷ rest) = do
    result ← purchase dto tx_hash
    results ← purchase_each rest
    pure (result ∷ results)

  -- `amounts[i]` for every `listingIds[i]`: arrays of one length.
  unfoldable pub bulk_purchase :
      List (PurchaseDto × String) → Action (Market prisma) (List PurchaseResult)
  unfolding purchase_each
  bulk_purchase orders = do
    throw_if (ltb 50 (length orders))
        (bad_request "Bulk purchase is limited to 50 listings per request")
    purchase_each orders
