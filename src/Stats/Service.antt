-- ===== src/Stats/Service.antt =====
-- backend/src/stats/stats.service.ts. A sum or a count over a table is one of the client; the sold
-- listings that are read row by row are summed as well. `parse_float` is `parseFloat` of a price, as
-- a whole number of its smallest unit, and `none` is NaN.
use carbonledger.Base.{
  ℕ, ◌+◌, ◌*◌, String, Bool, true, false, Option, none, some, List, [], ◌∷◌, ◌==◌, if◌then◌else◌,
}
use carbonledger.Base.Int.{ℤ, pos_part, neg_part, sub_ℕ}
use carbonledger.Prisma.{Prisma}
use carbonledger.Schema.{Project, ProjectStatus, RetirementRecord, MarketListing, ListingStatus, Db}
use carbonledger.Marketplace.Service.{is_available}

pub record LeaderboardEntry : Type 0 where
  pub rank : ℕ
  pub beneficiary : String
  pub total_tonnes : ℕ

-- The rows of `groupBy`, numbered from 1.
unfoldable pub numbered : ℕ → List (String × ℕ) → List LeaderboardEntry
numbered rank [] = []
numbered rank ((beneficiary, total) ∷ rows) =
    record { rank = rank; beneficiary = beneficiary; total_tonnes = total }
    ∷ numbered (rank + 1) rows

abbrev pub get_leaderboard : List (String × ℕ) → List LeaderboardEntry
get_leaderboard = numbered 1

abbrev pub is_verified : Project → Bool
is_verified p = elim p.status [ ProjectStatus.verified ↦ true | _ ↦ false ]

abbrev pub is_sold : MarketListing → Bool
is_sold l = elim l.status [ ListingStatus.sold ↦ true | _ ↦ false ]

pub record PlatformStats : Type 0 where
  pub total_credits_issued : ℕ
  pub total_credits_retired : ℕ
  pub active_projects : ℕ
  pub marketplace_volume : ℕ

pub record AggregateStats : Type 0 where
  pub total_co2_retired : ℕ
  pub active_listings_count : ℕ
  pub verified_projects_count : ℕ
  pub total_usdc_volume : Option ℤ

module _ (prisma : Prisma) where
  unfoldable pub get_platform_stats : Db prisma → PlatformStats
  get_platform_stats db = record {
    total_credits_issued = prisma.sum is_verified (λ p. p.total_credits_issued) db.projects;
    total_credits_retired = prisma.sum is_verified (λ p. p.total_credits_retired) db.projects;
    active_projects = prisma.sum is_verified (λ p. 1) db.projects;
    marketplace_volume = 0;
  }

  abbrev pub total_retired : Db prisma → ℕ
  total_retired db = prisma.sum {V = RetirementRecord} (λ r. true) (λ r. r.amount) db.retirements

  module _ (price_of : String → ℕ) where
    -- The sums of `price * amount` over the sold listings, of the amounts above zero and below it.
    abbrev pub sold_above : Db prisma → ℕ
    sold_above db =
        prisma.sum is_sold (λ l. price_of l.price_per_credit * pos_part l.amount_available)
          db.listings

    abbrev pub sold_below : Db prisma → ℕ
    sold_below db =
        prisma.sum is_sold (λ l. price_of l.price_per_credit * neg_part l.amount_available)
          db.listings

  module _ (parse_float : String → Option ℕ) where
    abbrev pub number_of : String → ℕ
    number_of price = elim (parse_float price) [ none ↦ 0 | some n ↦ n ]

    abbrev pub is_nan : String → ℕ
    is_nan price = elim (parse_float price) [ none ↦ 1 | some n ↦ 0 ]

    -- How many sold listings have a price that is no number; one is enough to make the sum NaN.
    abbrev pub sold_at_nan : Db prisma → ℕ
    sold_at_nan db = prisma.sum is_sold (λ l. is_nan l.price_per_credit) db.listings

    unfoldable pub get_aggregate_stats : Db prisma → AggregateStats
    get_aggregate_stats db = record {
      total_co2_retired = total_retired db;
      active_listings_count = prisma.sum (λ l. is_available l.status) (λ l. 1) db.listings;
      verified_projects_count = prisma.sum is_verified (λ p. 1) db.projects;
      total_usdc_volume =
          if sold_at_nan db == 0
          then some (sub_ℕ (sold_above number_of db) (sold_below number_of db))
          else none;
    }
