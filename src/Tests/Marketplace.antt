-- ===== src/Tests/Marketplace.antt =====
-- The marketplace at concrete inputs.
use carbonledger.Base.{◌≡◌, refl, none, [], ◌∷◌, String, List}
use carbonledger.Base.Int.{pos, ◌-ℤ◌}
use carbonledger.Prisma.Memory.{memory, Entries}
use carbonledger.Schema.{MarketListing, Role}
use carbonledger.Marketplace.Service.{
  Market, Page, PurchaseDto, CreateListingDto, purchase, purchase_each,
}
use carbonledger.Marketplace.Purchases.{Progress, purchase_each-Progress}
use carbonledger.Marketplace.Cache.{IsCoherent}
use carbonledger.Tests.Samples.{sample, listing}

abbrev market : Market memory
market = record { db = sample; cached = λ k. none }

abbrev buy : PurchaseDto
buy = record { listing_id = "l1"; amount = pos 4 }

purchase_each-Progress_example :
    Progress memory ((buy, "h1") ∷ (buy, "h2") ∷ (buy, "h3") ∷ []) market "l1" listing
purchase_each-Progress_example =
    purchase_each-Progress memory ((buy, "h1") ∷ (buy, "h2") ∷ (buy, "h3") ∷ []) market "l1" listing
      refl

-- The third purchase of four out of ten is refused, and two credits are left.
purchases_run :
    (purchase_each memory ((buy, "h1") ∷ (buy, "h2") ∷ (buy, "h3") ∷ []) market).1.db.listings
    ≡ (
      "l1",
      record listing {
        amount_available = pos 2;
        status = carbonledger.Schema.ListingStatus.partially_filled;
      },
    )
      ∷ []
unfolding purchase_each purchase ◌-ℤ◌
purchases_run = refl

abbrev values : Entries MarketListing → List MarketListing
values [] = []
values ((_, l) ∷ rest) = l ∷ values rest

abbrev query : String → Entries MarketListing → Page
query key rows = record { listings = values rows; next_cursor = none; total_count = 1 }

market-IsCoherent : IsCoherent memory query market
market-IsCoherent key page e = cc

abbrev new_dto : CreateListingDto
new_dto = record {
  listing_id = "l2";
  project_id = "p1";
  credit_batch_id = "b1";
  amount = pos 7;
  price_per_tonne = "6";
  vintage_year = 2023;
  seller = "sel";
}
