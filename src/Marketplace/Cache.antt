-- ===== src/Marketplace/Cache.antt =====
-- The cache of listing pages against the database.
use carbonledger.Base.{String, ◌≡◌, inl, inr, some, arith, eq_iff, Option-cases}
use carbonledger.Prisma.{Prisma}
use carbonledger.Schema.{MarketListing, Role}
use carbonledger.Action.{ok}
use carbonledger.Marketplace.Service.{
  Market, Page, CreateListingDto, PurchaseDto, find_all, create_listing, delist, purchase,
}

module _ (prisma : Prisma) (run_query : String → prisma.Rows MarketListing → Page) where
  -- Every page that is held is what its query would answer now.
  abbrev pub IsCoherent : Market prisma → Type 0
  IsCoherent s =
      (key : String) (page : Page) → s.cached key ≡ some page → page ≡ run_query key s.db.listings

  -- Under a coherent cache `findAll` answers as the database would, and leaves the cache coherent.
  pub find_all_refines_query :
      (key : String) (s : Market prisma)
      → IsCoherent s
      → ((find_all prisma run_query key s).0 ≡ ok (run_query key s.db.listings))
        × IsCoherent (find_all prisma run_query key s).1
  unfolding find_all
  find_all_refines_query key s h = elim (Option-cases (s.cached key)) [
    | inl missed ↦ (ground arith, λ k page e. ground (arith, h k page, eq_iff k key))
    | inr (page, hit) ↦ (ground (arith, h key page hit), λ k p e. ground (arith, h k p))
  ]

  pub create_listing-IsCoherent :
      (dto : CreateListingDto) (now : String) (s : Market prisma)
      → IsCoherent s
      → IsCoherent (create_listing prisma dto now s).1
  unfolding create_listing
  create_listing-IsCoherent dto now s h key page e = ground (arith, h key page)

  pub delist-IsCoherent :
      (id caller : String) (role : Role) (now : String) (s : Market prisma)
      → IsCoherent s
      → IsCoherent (delist prisma id caller role now s).1
  unfolding delist
  delist-IsCoherent id caller role now s h key page e = ground (arith, h key page)

  -- A purchase drops no page.
  pub purchase_keeps_cache :
      (dto : PurchaseDto) (tx_hash : String) (s : Market prisma)
      → (purchase prisma dto tx_hash s).1.cached ≡ s.cached
  unfolding purchase
  purchase_keeps_cache dto tx_hash s = ground arith
