-- ===== src/Paging/Filters.antt =====
-- The `where` clauses of the queries: a later key of an object literal takes the place of an earlier
-- one. `contains` is the client's test `{ contains, mode: "insensitive" }`, and `text_leb` its order
-- of text columns.
use carbonledger.Base.{
  ℕ, ◌-◌, ltb, leb, ◌==◌, String, ◌≡◌, refl, Bool, true, false, ◌&&◌, ◌||◌, Option, none, some,
  List, [], ◌∷◌, str_eq, arith, if◌then◌else◌,
}

-- A filter that is not given, or is an empty text, is left out.
abbrev pub given : Option String → Option String
given none = none
given (some s) = if str_eq s "" then none else some s

abbrev pub if_given : Option String → (String → Bool) → Bool
if_given o test = elim (given o) [ none ↦ true | some s ↦ test s ]

abbrev pub is_in : List String → String → Bool
is_in [] s = false
is_in (t ∷ ts) s = str_eq t s || is_in ts s

abbrev pub if_any : List String → String → Bool
if_any [] s = true
if_any (t ∷ ts) s = is_in (t ∷ ts) s

abbrev pub is_year_in : List ℕ → ℕ → Bool
is_year_in [] y = false
is_year_in (t ∷ ts) y = (t == y) || is_year_in ts y

abbrev pub if_any_year : List ℕ → ℕ → Bool
if_any_year [] y = true
if_any_year (t ∷ ts) y = is_year_in (t ∷ ts) y

-- One bound of a column, as the object of a `where` holds it.
pub data Bound : Type 0 where
  gte lte : String → Bound

-- `...(low && { column: { gte: low } }), ...(high && { column: { lte: high } })`
unfoldable pub bound_of : Option String → Option String → Option Bound
bound_of low high = elim (given high) [
  | some t ↦ some (lte t)
  | none ↦ elim (given low) [ some s ↦ some (gte s) | none ↦ none ]
]

abbrev pub meets : (String → String → Bool) → Option Bound → String → Bool
meets text_leb none s = true
meets text_leb (some (gte t)) s = text_leb t s
meets text_leb (some (lte t)) s = text_leb s t

-- A row of the projects with the columns that the search reads.
pub record ProjectRow : Type 0 where
  pub id : String
  pub project_id : String
  pub name : String
  pub description : Option String
  pub methodology : String
  pub country : String
  pub status : String
  pub vintage_year : ℕ
  pub last_monitoring_at : Option ℕ
  pub created_at : String

pub record ListingRow : Type 0 where
  pub id : String
  pub project_id : String
  pub project_name : String
  pub methodology : String
  pub country : String
  pub vintage_year : ℕ
  pub price_per_credit : String
  pub status : String

pub record ProjectFilters : Type 0 where
  pub methodology : Option String
  pub country : Option String
  pub vintage : ℕ

pub data OracleFreshness : Type 0 where
  fresh stale unknown : OracleFreshness

pub record SearchProjectsDto : Type 0 where
  pub search : Option String
  pub methodology : List String
  pub country : List String
  pub status : List String
  pub vintage_year : List ℕ
  pub oracle_freshness : Option OracleFreshness

pub record ListingsQueryDto : Type 0 where
  pub methodology : Option String
  pub vintage : ℕ
  pub country : Option String
  pub min_price : Option String
  pub max_price : Option String
  pub search : Option String

abbrev pub if_year : ℕ → ℕ → Bool
if_year wanted y = (wanted == 0) || (wanted == y)

-- `findAll` of the projects
unfoldable pub projects_where : ProjectFilters → ProjectRow → Bool
projects_where filters row =
    if_given filters.methodology (str_eq row.methodology)
    && if_given filters.country (str_eq row.country)
    && if_year filters.vintage row.vintage_year

module _ (contains : String → String → Bool) where
  abbrev pub text_contains? : Option String → String → Bool
  text_contains? none s = false
  text_contains? (some text) s = contains text s

  -- `where.OR` of a search text
  abbrev pub text_or : String → ProjectRow → Bool
  text_or s row = contains row.name s || text_contains? row.description s

  abbrev pub is_before : ℕ → Option ℕ → Bool
  is_before t none = false
  is_before t (some at_) = ltb at_ t

  abbrev pub is_none : Option ℕ → Bool
  is_none none = true
  is_none (some _) = false

  -- `where.OR` as it stands in the end: the stale ones replace the text's.
  unfoldable pub or_clause : SearchProjectsDto → ℕ → ProjectRow → Bool
  or_clause dto limit_ row = elim dto.oracle_freshness [
    | some stale ↦ is_before limit_ row.last_monitoring_at || is_none row.last_monitoring_at
    | some fresh ↦ if_given dto.search (λ s. text_or s row)
    | some unknown ↦ if_given dto.search (λ s. text_or s row)
    | none ↦ if_given dto.search (λ s. text_or s row)
  ]

  -- `where.lastMonitoringAt`
  unfoldable pub monitoring_clause : SearchProjectsDto → ℕ → ProjectRow → Bool
  monitoring_clause dto limit_ row = elim dto.oracle_freshness [
    | some fresh ↦ elim row.last_monitoring_at [ none ↦ false | some at_ ↦ leb limit_ at_ ]
    | some unknown ↦ is_none row.last_monitoring_at
    | some stale ↦ true
    | none ↦ true
  ]

  -- `thirtyDaysAgo`, in milliseconds
  abbrev pub thirty_days_ago : ℕ → ℕ
  thirty_days_ago now = now - 2592000000

  unfoldable pub search_where : SearchProjectsDto → ℕ → ProjectRow → Bool
  unfolding or_clause monitoring_clause
  search_where dto now row =
      or_clause dto (thirty_days_ago now) row
      && if_any dto.methodology row.methodology
      && if_any dto.country row.country
      && if_any dto.status row.status
      && if_any_year dto.vintage_year row.vintage_year
      && monitoring_clause dto (thirty_days_ago now) row

  abbrev pub listing_text : String → ListingRow → Bool
  listing_text s row =
      contains row.project_name s
      || contains row.methodology s
      || contains row.country s
      || contains row.project_id s

  unfoldable pub listings_where : (String → String → Bool) → ListingsQueryDto → ListingRow → Bool
  unfolding bound_of
  listings_where text_leb query row =
      is_in ("Active" ∷ "PartiallyFilled" ∷ []) row.status
      && if_given query.methodology (str_eq row.methodology)
      && if_year query.vintage row.vintage_year
      && if_given query.country (str_eq row.country)
      && meets text_leb (bound_of query.min_price query.max_price) row.price_per_credit
      && if_given query.search (λ s. listing_text s row)

  -- A search text has no effect beside the filter of stale projects.
  pub stale_drops_search :
      (dto : SearchProjectsDto) (now : ℕ) (row : ProjectRow)
      → dto.oracle_freshness ≡ some stale
      → search_where dto now row ≡ search_where (record dto { search = none }) now row
  unfolding search_where or_clause monitoring_clause
  stale_drops_search dto now row e = rw (e, search_where, or_clause, monitoring_clause) refl

  -- A lowest price has no effect beside a highest one.
  pub max_price_drops_min :
      (text_leb : String → String → Bool) (query : ListingsQueryDto) (low : Option String)
      (high : String) (row : ListingRow)
      → given query.max_price ≡ some high
      → listings_where text_leb query row
        ≡ listings_where text_leb (record query { min_price = low }) row
  unfolding listings_where bound_of
  max_price_drops_min text_leb query low high row e = ground (arith, e)
