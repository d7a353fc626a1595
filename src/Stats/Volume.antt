-- ===== src/Stats/Volume.antt =====
-- backend/src/stats: what the trades and the retirements of the services do to the figures.
use carbonledger.Base.{
  ◌==◌, if◌then◌else◌, ℕ, ◌*◌, ltb, String, true, List, [], ◌∷◌, length, ◌≡◌, refl, ap, arith,
  Option, none, some, Bool-cases, Option-cases, inl, inr, not, ◌&&◌, str_eq,
}
use carbonledger.Base.Int.{ℤ, pos, negsuc, pos_part, neg_part, eqb_ℤ, ◌-ℤ◌}
use carbonledger.Prisma.{Prisma, upserted, counted}
use carbonledger.Schema.{MarketListing, Db, delisted, Role}
use carbonledger.Action.{bad_request, pure, ◌>>=◌}
use carbonledger.Action.Keeps.{Keeps, bind-Keeps, guard-Keeps}
use carbonledger.Tables.{listings}
use carbonledger.Tables.Laws.{create_free, create_taken, update_found}
use carbonledger.Marketplace.Service.{
  Market, CreateListingDto, new_listing, PurchaseDto, is_admin, with_listing_status, write_purchase,
  find_one, create_listing, delist_listing, delist, purchase, purchase_each, bulk_purchase,
}
use carbonledger.Marketplace.Purchases.{refused, went_through, purchase_cases, purchase_sells}
use carbonledger.Stats.Service.{
  number_of, sold_at_nan, is_sold, sold_above, sold_below, get_aggregate_stats,
}

module _ (prisma : Prisma) (price_of : String → ℕ) where
  -- No sold listing has an amount that counts.
  abbrev pub IsZero : Db prisma → Type 0
  IsZero db = (sold_above prisma price_of db ≡ 0) × (sold_below prisma price_of db ≡ 0)

  -- A row that counts nothing when it is written.
  abbrev IsBlank : Option MarketListing → Type 0
  IsBlank none = Unit
  IsBlank (some l) = is_sold l ≡ true → l.amount_available ≡ pos 0

  blank_above :
      (l : MarketListing)
      → IsBlank (some l)
      → counted is_sold (λ r. price_of r.price_per_credit * pos_part r.amount_available) l ≡ 0
  blank_above l b = elim (Bool-cases (is_sold l)) [
    | inl is ↦ rw (is, counted, b is) (omega arith)
    | inr open_ ↦ rw (open_, counted) refl
  ]

  blank_below :
      (l : MarketListing)
      → IsBlank (some l)
      → counted is_sold (λ r. price_of r.price_per_credit * neg_part r.amount_available) l ≡ 0
  blank_below l b = elim (Bool-cases (is_sold l)) [
    | inl is ↦ rw (is, counted, b is) (omega arith)
    | inr open_ ↦ rw (open_, counted) refl
  ]

  upsert-IsZero :
      (k : String) (f : MarketListing → MarketListing) (v : MarketListing) (db : Db prisma)
      → IsBlank (some (upserted (prisma.find_unique k db.listings) f v))
      → IsZero db
      → IsZero (record db { listings = prisma.upsert k f v db.listings })
  upsert-IsZero k f v db b (above, below) =
      let row = upserted (prisma.find_unique k db.listings) f v in
      (
        omega (
          arith,
          above,
          blank_above row b,
          prisma.sum-upsert is_sold (λ r. price_of r.price_per_credit * pos_part r.amount_available)
              k f v db.listings,
        ),
        omega (
          arith,
          below,
          blank_below row b,
          prisma.sum-upsert is_sold (λ r. price_of r.price_per_credit * neg_part r.amount_available)
              k f v db.listings,
        ),
      )

  eqb_ℤ-zero : (z : ℤ) → eqb_ℤ z (pos 0) ≡ true → z ≡ pos 0
  eqb_ℤ-zero (pos n) h = ap pos (ground arith)
  eqb_ℤ-zero (negsuc n) h = ground arith

  bought-IsBlank :
      (amount : ℤ) (read l : MarketListing) → IsBlank (some (write_purchase amount read l))
  bought-IsBlank amount read l h =
      elim (Bool-cases (eqb_ℤ (read.amount_available -ℤ amount) (pos 0))) [
        | inl zero_ ↦ eqb_ℤ-zero (read.amount_available -ℤ amount) zero_
        | inr rest ↦ ground (arith, rest)
      ]

  purchase-IsZero :
      (dto : PurchaseDto) (tx_hash : String) (s : Market prisma)
      → IsZero s.db
      → IsZero (purchase prisma dto tx_hash s).1.db
  purchase-IsZero dto tx_hash s z = elim (purchase_cases prisma dto tx_hash s) [
    | refused e same ↦ rw same z
    | went_through l found avail enough ↦
        rw (purchase_sells prisma dto tx_hash s found avail enough) (
          upsert-IsZero dto.listing_id (write_purchase dto.amount l) l s.db
            (rw found (bought-IsBlank dto.amount l l)) z)
  ]

  abbrev pub HasNoVolume : Market prisma → Type 0
  HasNoVolume s = IsZero s.db

  purchase_each-IsZero :
      (orders : List (PurchaseDto × String)) → Keeps HasNoVolume (purchase_each prisma orders)
  unfolding purchase_each
  purchase_each-IsZero [] = λ s z. z
  purchase_each-IsZero ((dto, tx_hash) ∷ rest) =
      bind-Keeps HasNoVolume (purchase prisma dto tx_hash)
        (λ result. purchase_each prisma rest >>= λ results. pure (result ∷ results))
        (purchase-IsZero dto tx_hash)
        (λ result.
          bind-Keeps HasNoVolume (purchase_each prisma rest) (λ results. pure (result ∷ results))
            (purchase_each-IsZero rest) (λ results s z. z))

  create_listing-IsZero :
      (dto : CreateListingDto) (now : String) → Keeps HasNoVolume (create_listing prisma dto now)
  unfolding create_listing
  create_listing-IsZero dto now s z =
      elim (Option-cases (prisma.find_unique {V = MarketListing} dto.listing_id s.db.listings)) [
        | inl free ↦
            let made = create_free (listings prisma) dto.listing_id (new_listing dto) s.db free in
            let same : (create_listing prisma dto now s).1.db ≡ (record (s.db) {
              listings = prisma.upsert dto.listing_id (λ l. l) (new_listing dto) s.db.listings;
            }) =
              ground (arith, made) in
            rw same
              (upsert-IsZero dto.listing_id (λ l. l) (new_listing dto) s.db (rw free (λ h. cc)) z)
        | inr (l, taken) ↦
            let kept = create_taken (listings prisma) dto.listing_id (new_listing dto) s.db taken in
            let same : (create_listing prisma dto now s).1.db ≡ s.db = ground (arith, kept) in
            rw same z
      ]

  delist-IsZero :
      (id caller : String) (role : Role) (now : String)
      → Keeps HasNoVolume (delist prisma id caller role now)
  unfolding delist delist_listing find_one
  delist-IsZero id caller role now s z =
      elim (Option-cases (prisma.find_unique {V = MarketListing} id s.db.listings)) [
        | inl missing ↦
            let same : (delist prisma id caller role now s).1.db ≡ s.db = ground (arith, missing) in
            rw same z
        | inr (l, found) ↦
            let f = with_listing_status delisted in
            let done = update_found (listings prisma) id f s.db found in
            elim (Bool-cases (not (str_eq l.seller caller) && not (is_admin role))) [
              | inl other ↦
                  let same : (delist prisma id caller role now s).1.db ≡ s.db =
                    ground (arith, found, other) in
                  rw same z
              | inr allowed ↦
                  let same : (delist prisma id caller role now s).1.db
                      ≡ (record (s.db) { listings = prisma.upsert id f l s.db.listings }) =
                    ground (arith, found, allowed, done) in
                  rw same (upsert-IsZero id f l s.db (rw found (λ h. cc)) z)
            ]
      ]

-- What sellers, buyers and administrators do.
pub data Trade : Type 0 where
  offer : CreateListingDto → String → Trade
  withdraw : String → String → Role → String → Trade
  buy : PurchaseDto → String → Trade
  buy_many : List (PurchaseDto × String) → Trade

module _ (prisma : Prisma) where
  unfoldable pub trade : Trade → Market prisma → Market prisma
  trade (offer dto now) s = (create_listing prisma dto now s).1
  trade (withdraw id caller role now) s = (delist prisma id caller role now s).1
  trade (buy dto tx_hash) s = (purchase prisma dto tx_hash s).1
  trade (buy_many orders) s = (bulk_purchase prisma orders s).1

  unfoldable pub trades : List Trade → Market prisma → Market prisma
  unfolding trade
  trades [] s = s
  trades (t ∷ ts) s = trades ts (trade t s)

  module _ (price_of : String → ℕ) where
    trade-IsZero :
        (t : Trade) (s : Market prisma)
        → HasNoVolume prisma price_of s
        → HasNoVolume prisma price_of (trade t s)
    unfolding trade bulk_purchase
    trade-IsZero (offer dto now) = create_listing-IsZero prisma price_of dto now
    trade-IsZero (withdraw id caller role now) = delist-IsZero prisma price_of id caller role now
    trade-IsZero (buy dto tx_hash) = purchase-IsZero prisma price_of dto tx_hash
    trade-IsZero (buy_many orders) =
        guard-Keeps (HasNoVolume prisma price_of) (ltb 50 (length orders))
          (bad_request "Bulk purchase is limited to 50 listings per request")
          (purchase_each prisma orders) (purchase_each-IsZero prisma price_of orders)

    trades-IsZero :
        (ts : List Trade) (s : Market prisma)
        → HasNoVolume prisma price_of s
        → HasNoVolume prisma price_of (trades ts s)
    unfolding trades
    trades-IsZero [] s z = z
    trades-IsZero (t ∷ ts) s z = trades-IsZero ts (trade t s) (trade-IsZero t s z)

  -- The volume of the statistics, once nothing, stays nothing, whatever is sold on the market; or it
  -- is NaN, where a sold listing has a price that is no number.
  pub volume_stays_zero :
      (parse_float : String → Option ℕ) (ts : List Trade) (s : Market prisma)
      → sold_above prisma (number_of prisma parse_float) s.db ≡ 0
      → sold_below prisma (number_of prisma parse_float) s.db ≡ 0
      → (get_aggregate_stats prisma parse_float (trades ts s).db).total_usdc_volume
        ≡ (if sold_at_nan prisma parse_float (trades ts s).db == 0 then some (pos 0) else none)
  unfolding get_aggregate_stats
  volume_stays_zero parse_float ts s above below =
      let (a, b) = trades-IsZero (number_of prisma parse_float) ts s (above, below) in
      rw (a, b) refl
