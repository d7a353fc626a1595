-- ===== src/Marketplace/Purchases.antt =====
-- What purchases do to the amounts on offer.
use carbonledger.Base.{
  ℕ, suc, String, ◌≡◌, refl, ap, ◌∙◌, inl, inr, true, false, some, List, [], ◌∷◌, arith, length,
  take, str_eq, if◌then◌else◌, eq_iff, Bool-cases, Option-cases,
}
use carbonledger.Base.Int.{ℤ, pos, negsuc, ◌+ℤ◌, ◌-ℤ◌, ◌≤ℤ◌, ltb_ℤ, int_laws}
use carbonledger.Prisma.{Prisma}
use carbonledger.Schema.{MarketListing}
use carbonledger.Action.{Error, Result, Result-cases, ok, err, bad_request, not_found}
use carbonledger.Tables.Laws.{find-upsert}
use carbonledger.Marketplace.Service.{
  Market, PurchaseDto, PurchaseResult, is_available, write_purchase, purchase, purchase_each,
}

module _ (prisma : Prisma) where
  -- The market after a purchase from a listing as it was read.
  abbrev pub sold_from : PurchaseDto → MarketListing → Market prisma → Market prisma
  sold_from dto listing s = record s {
    db = record (s.db) {
      listings =
          prisma.upsert dto.listing_id (write_purchase dto.amount listing) listing s.db.listings;
    };
  }

  module _ (dto : PurchaseDto) (tx_hash : String) (s : Market prisma) where
    pub purchase_sells :
        {listing : MarketListing}
        → prisma.find_unique dto.listing_id s.db.listings ≡ some listing
        → is_available listing.status ≡ true
        → ltb_ℤ listing.amount_available dto.amount ≡ false
        → purchase prisma dto tx_hash s ≡ (
          ok (record { tx_hash = tx_hash; batch_id = listing.batch_id; amount = dto.amount }),
          sold_from dto listing s,
        )
    unfolding purchase
    purchase_sells {listing} found avail enough = ground (
      arith,
      prisma.update_found dto.listing_id (write_purchase dto.amount listing) s.db.listings found,
      prisma.find-upsert_self dto.listing_id (write_purchase dto.amount listing) listing
          s.db.listings,
    )

    pub data Outcome : Type 0 where
      refused : (e : Error) → purchase prisma dto tx_hash s ≡ (err e, s) → Outcome
      went_through :
          (listing : MarketListing)
          → prisma.find_unique dto.listing_id s.db.listings ≡ some listing
          → is_available listing.status ≡ true
          → ltb_ℤ listing.amount_available dto.amount ≡ false
          → Outcome

    pub purchase_cases : Outcome
    unfolding purchase
    purchase_cases =
        elim (Option-cases (prisma.find_unique {V = MarketListing} dto.listing_id s.db.listings)) [
          | inl missing ↦ refused (not_found "Listing not found") (ground arith)
          | inr (listing, found) ↦ elim (Bool-cases (is_available listing.status)) [
            | inr closed ↦ refused (bad_request "Listing is not available") (ground arith)
            | inl avail ↦ elim (Bool-cases (ltb_ℤ listing.amount_available dto.amount)) [
              | inl short ↦ refused (bad_request "Insufficient credits in listing") (ground arith)
              | inr enough ↦ went_through listing found avail enough
            ]
          ]
        ]

  -- The credits that orders take from one listing.
  abbrev pub ordered : String → List (PurchaseDto × String) → ℤ
  ordered k [] = pos 0
  ordered k ((dto, _) ∷ rest) =
      (if str_eq dto.listing_id k then dto.amount else pos 0) +ℤ ordered k rest

  sub_add_cancel : (a b : ℤ) → a -ℤ b +ℤ b ≡ a
  sub_add_cancel a b = omega int_laws

  regroup : (a b c : ℤ) → a +ℤ (b +ℤ c) ≡ a +ℤ c +ℤ b
  regroup a b c = omega int_laws

  same_row :
      (s : Market prisma) (k : String) (l listing : MarketListing) (dto : PurchaseDto)
      → str_eq dto.listing_id k ≡ true
      → prisma.find_unique k s.db.listings ≡ some l
      → prisma.find_unique dto.listing_id s.db.listings ≡ some listing
      → listing ≡ l
  same_row s k l listing dto same there found = ground (arith, eq_iff dto.listing_id k)

  -- Whether a step of the loop sells or throws, what is left of a listing and what was taken add up.
  purchase_balance :
      (dto : PurchaseDto) (tx_hash : String) (s : Market prisma) (k : String) (l : MarketListing)
      → prisma.find_unique k s.db.listings ≡ some l
      → {listing : MarketListing} → prisma.find_unique dto.listing_id s.db.listings ≡ some listing
      → (l' : MarketListing) × (prisma.find_unique k (sold_from dto listing s).db.listings
          ≡ some l')
        × (l'.amount_available +ℤ (if str_eq dto.listing_id k then dto.amount else pos 0)
            ≡ l.amount_available)
  purchase_balance dto tx_hash s k l there {listing} found =
      elim (Bool-cases (str_eq dto.listing_id k)) [
        | inl same ↦ (
          write_purchase dto.amount listing listing,
          ground (
            arith,
            find-upsert prisma k dto.listing_id (write_purchase dto.amount listing) listing
                s.db.listings,
          ),
          rw same (
              sub_add_cancel listing.amount_available dto.amount
              ∙ ap (λ r. r.amount_available) (same_row s k l listing dto same there found)),
        )
        | inr differ ↦ (
          l,
          ground (
            arith,
            find-upsert prisma k dto.listing_id (write_purchase dto.amount listing) listing
                s.db.listings,
          ),
          rw differ (omega int_laws),
        )
      ]

  -- What the loop has done when it stops: some first orders went through, and all did if it returns.
  pub record Progress (orders : List (PurchaseDto × String)) (s : Market prisma) (k : String)
      (l : MarketListing) : Type 0 where
    pub done : ℕ
    pub row : MarketListing
    pub stored : prisma.find_unique k (purchase_each prisma orders s).1.db.listings ≡ some row
    pub balance : row.amount_available +ℤ ordered k (take done orders) ≡ l.amount_available
    pub complete :
        (results : List PurchaseResult)
        → (purchase_each prisma orders s).0 ≡ ok results
        → done ≡ length orders

  module _ (dto : PurchaseDto) (tx_hash : String) (rest : List (PurchaseDto × String))
      (s : Market prisma) where
    loop_stops :
        {e : Error}
        → purchase prisma dto tx_hash s ≡ (err e, s)
        → purchase_each prisma ((dto, tx_hash) ∷ rest) s ≡ (err e, s)
    unfolding purchase_each
    loop_stops h = ground arith

    loop_goes_on :
        {result : PurchaseResult} {s' : Market prisma}
        → purchase prisma dto tx_hash s ≡ (ok result, s')
        → ((purchase_each prisma ((dto, tx_hash) ∷ rest) s).1 ≡ (purchase_each prisma rest s').1)
          × ((results : List PurchaseResult)
              → (purchase_each prisma ((dto, tx_hash) ∷ rest) s).0 ≡ ok results
              → (more : List PurchaseResult) × ((purchase_each prisma rest s').0 ≡ ok more))
    unfolding purchase_each
    loop_goes_on {s'} h = (
      ground arith,
      λ results e. elim (Result-cases (purchase_each prisma rest s').0) [
        | inl returned ↦ returned
        | inr (error, threw) ↦ absurd (ground arith)
      ],
    )

  no_orders-Progress :
      (s : Market prisma) (k : String) (l : MarketListing)
      → prisma.find_unique k s.db.listings ≡ some l
      → Progress [] s k l
  unfolding purchase_each
  no_orders-Progress s k l there = record {
    done = 0;
    row = l;
    stored = there;
    balance = omega int_laws;
    complete = λ results e. refl;
  }

  -- However far a bulk purchase gets, some first orders have been taken from a listing and no others:
  -- what is left of it and what they ordered add up to what it held, and all were taken if none threw.
  pub purchase_each-Progress :
      (orders : List (PurchaseDto × String)) (s : Market prisma) (k : String) (l : MarketListing)
      → prisma.find_unique k s.db.listings ≡ some l
      → Progress orders s k l
  purchase_each-Progress [] s k l there = no_orders-Progress s k l there
  purchase_each-Progress ((dto, tx_hash) ∷ rest) s k l there = elim (purchase_cases dto tx_hash s) [
    | refused e h ↦
        let stop = loop_stops dto tx_hash rest s h in
        record {
          done = 0;
          row = l;
          stored = rw stop there;
          balance = omega int_laws;
          complete = λ results returned.
              cc (ap (λ (r : Result (List PurchaseResult) × Market prisma). r.0) stop);
        }
    | went_through listing found avail enough ↦
        let (state, results_more) =
          loop_goes_on dto tx_hash rest s (purchase_sells dto tx_hash s found avail enough) in
        let (l1, stored, balance) = purchase_balance dto tx_hash s k l there found in
        let later = purchase_each-Progress rest (sold_from dto listing s) k l1 stored in
        record {
          done = suc later.done;
          row = later.row;
          stored = rw state later.stored;
          balance =
              regroup later.row.amount_available _ _
              ∙ ap (λ z. z +ℤ (if str_eq dto.listing_id k then dto.amount else pos 0)) later.balance
              ∙ balance;
          complete = λ results returned.
              let (more, e) = results_more results returned in ap suc (later.complete more e);
        }
  ]

  added_back : (a b c : ℤ) (n : ℕ) → b ≡ negsuc n → a +ℤ b ≡ c → a ≡ c +ℤ pos (suc n)
  added_back a b c n e h =
      let undo : a ≡ a +ℤ negsuc n +ℤ pos (suc n) = omega int_laws in
      undo ∙ ap (λ z. z +ℤ pos (suc n)) (rw e at h)

  -- A purchase of a negative amount is let through, and puts credits on offer that no one listed.
  pub negative_purchase_adds :
      (dto : PurchaseDto) (tx_hash : String) (s : Market prisma) (listing : MarketListing) (n : ℕ)
      → dto.amount ≡ negsuc n
      → prisma.find_unique dto.listing_id s.db.listings ≡ some listing
      → is_available listing.status ≡ true
      → pos 0 ≤ℤ listing.amount_available
      → (l' : MarketListing) × (prisma.find_unique dto.listing_id
            (purchase prisma dto tx_hash s).1.db.listings
          ≡ some l')
        × (l'.amount_available ≡ listing.amount_available +ℤ pos (suc n))
  negative_purchase_adds dto tx_hash s listing n e found avail nonneg =
      let enough : ltb_ℤ listing.amount_available dto.amount ≡ false = rw e (ground arith) in
      let sells = purchase_sells dto tx_hash s found avail enough in
      let (l', stored, balance) =
        purchase_balance dto tx_hash s dto.listing_id listing found found in
      (
        l',
        rw sells stored,
        added_back _ _ _ n e (rw ((eq_iff dto.listing_id dto.listing_id).1 refl) at balance),
      )
