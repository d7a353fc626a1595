-- ===== src/Marketplace/Interleaving.antt =====
-- backend/src/marketplace/marketplace.service.ts: purchases that run at the same time. Each of the
-- two database calls of `purchase` is a step, and the steps of several requests interleave.
use carbonledger.Base.{
  String, true, false, not, some, List, [], ◌∷◌, ◌++◌, ◌≡◌, refl, inl, inr, arith, Option-cases,
  Bool-cases,
}
use carbonledger.Base.Int.{ℤ, ltb_ℤ, ◌-ℤ◌}
use carbonledger.Prisma.{Prisma}
use carbonledger.Schema.{MarketListing}
use carbonledger.Action.{Action, ok, ◌>>=◌, ◌>>◌, pure, throw_if, bad_request}
use carbonledger.Tables.{listings, update}
use carbonledger.Marketplace.Service.{
  Market, PurchaseDto, PurchaseResult, is_available, write_purchase, on_db, find_one, purchase,
}

module _ (prisma : Prisma) where
  -- From the start of `purchase` to its read of the listing and the tests on it.
  unfoldable pub begin_purchase : PurchaseDto → Action (Market prisma) MarketListing
  unfolding find_one
  begin_purchase dto = do
    listing ← find_one prisma dto.listing_id
    throw_if (not (is_available listing.status)) (bad_request "Listing is not available")
    throw_if (ltb_ℤ listing.amount_available dto.amount)
        (bad_request "Insufficient credits in listing")
    pure listing

  -- The write of what was computed from the listing as it was read.
  unfoldable pub end_purchase :
      PurchaseDto → MarketListing → String → Action (Market prisma) PurchaseResult
  unfolding update
  end_purchase dto listing tx_hash = do
    on_db (update (listings prisma) dto.listing_id (write_purchase dto.amount listing))
    pure (record { tx_hash = tx_hash; batch_id = listing.batch_id; amount = dto.amount })

  -- The market, the requests that have read their listing, and the orders that were answered.
  pub record System : Type 0 where
    pub market : Market prisma
    pub waiting : List (PurchaseDto × MarketListing)
    pub answered : List PurchaseDto

  pub data Step : System → System → Type 0 where
    begin_ :
        {m : Market prisma} {waiting : List (PurchaseDto × MarketListing)}
        {answered : List PurchaseDto} {listing : MarketListing} (dto : PurchaseDto)
        → begin_purchase dto m ≡ (ok listing, m)
        → Step
            (record { market = m; waiting = waiting; answered = answered })
            (record { market = m; waiting = waiting ++ (dto, listing) ∷ []; answered = answered })
    end_ :
        {m m' : Market prisma} {waiting : List (PurchaseDto × MarketListing)}
        {answered : List PurchaseDto} {result : PurchaseResult} (dto : PurchaseDto)
        (listing : MarketListing) (tx_hash : String)
        → end_purchase dto listing tx_hash m ≡ (ok result, m')
        → Step
            (record { market = m; waiting = (dto, listing) ∷ waiting; answered = answered })
            (record { market = m'; waiting = waiting; answered = answered ++ dto ∷ [] })

  pub data Reaches : System → System → Type 0 where
    here : {s : System} → Reaches s s
    then_ : {s t u : System} → Step s t → Reaches t u → Reaches s u

  -- A request that runs alone takes its two steps one after the other.
  pub purchase_is_two_steps :
      (dto : PurchaseDto) (tx_hash : String) (m : Market prisma)
      → purchase prisma dto tx_hash m
        ≡ (begin_purchase dto >>= λ listing. end_purchase dto listing tx_hash) m
  unfolding purchase begin_purchase end_purchase
  purchase_is_two_steps dto tx_hash m =
      elim (Option-cases (prisma.find_unique dto.listing_id m.db.listings)) [
        | inl missing ↦ ground arith
        | inr (listing, found) ↦ ground (
          arith,
          Bool-cases (is_available listing.status),
          Bool-cases (ltb_ℤ listing.amount_available dto.amount),
        )
      ]

  abbrev pub quiet : Market prisma → List PurchaseDto → System
  quiet m answered = record { market = m; waiting = []; answered = answered }

  abbrev pub order : String → ℤ → PurchaseDto
  order id amount = record { listing_id = id; amount = amount }

  pub begin_lem :
      {listing : MarketListing} (dto : PurchaseDto) (m : Market prisma)
      → prisma.find_unique dto.listing_id m.db.listings ≡ some listing
      → is_available listing.status ≡ true
      → ltb_ℤ listing.amount_available dto.amount ≡ false
      → begin_purchase dto m ≡ (ok listing, m)
  unfolding begin_purchase
  begin_lem dto m found avail enough = ground arith

  abbrev pub written : PurchaseDto → MarketListing → MarketListing → Market prisma → Market prisma
  written dto read row m = record m {
    db = record (m.db) {
      listings = prisma.upsert dto.listing_id (write_purchase dto.amount read) row m.db.listings;
    };
  }

  pub end_lem :
      {row : MarketListing} (dto : PurchaseDto) (read : MarketListing) (tx_hash : String)
      (m : Market prisma)
      → prisma.find_unique dto.listing_id m.db.listings ≡ some row
      → end_purchase dto read tx_hash m ≡ (
        ok (record { tx_hash = tx_hash; batch_id = read.batch_id; amount = dto.amount }),
        written dto read row m,
      )
  unfolding end_purchase
  end_lem {row} dto read tx_hash m found = ground (
    arith,
    prisma.update_found dto.listing_id (write_purchase dto.amount read) m.db.listings found,
    prisma.find-upsert_self dto.listing_id (write_purchase dto.amount read) row m.db.listings,
  )

  -- Two orders of one open listing, each for no more than it offers, can both be answered, and then
  -- only the second is taken from what the listing offered.
  pub both_orders_are_answered :
      (id tx_hash : String) (a b : ℤ) (listing : MarketListing) (m : Market prisma)
      → prisma.find_unique id m.db.listings ≡ some listing
      → is_available listing.status ≡ true
      → ltb_ℤ listing.amount_available a ≡ false
      → ltb_ℤ listing.amount_available b ≡ false
      → (m' : Market prisma) × Reaches (quiet m []) (quiet m' (order id a ∷ order id b ∷ []))
        × ((row : MarketListing) × (prisma.find_unique id m'.db.listings ≡ some row)
            × (row.amount_available ≡ listing.amount_available -ℤ b))
  both_orders_are_answered id tx_hash a b listing m found avail enough enough' =
      let p = order id a in
      let q = order id b in
      let m1 = written p listing listing m in
      let row1 = write_purchase a listing listing in
      let stored1 : prisma.find_unique id m1.db.listings ≡ some row1 = ground (
        arith,
        found,
        prisma.find-upsert_self id (write_purchase a listing) listing m.db.listings,
      ) in
      let m2 = written q listing row1 m1 in
      (
        m2,
        then_ (begin_ p (begin_lem p m found avail enough)) (
            then_ (begin_ q (begin_lem q m found avail enough')) (
              then_ (end_ p listing tx_hash (end_lem p listing tx_hash m found))
                (then_ (end_ q listing tx_hash (end_lem q listing tx_hash m1 stored1)) here))),
        (
          write_purchase b listing row1,
          ground (
            arith,
            stored1,
            prisma.find-upsert_self id (write_purchase b listing) row1 m1.db.listings,
          ),
          refl,
        ),
      )
