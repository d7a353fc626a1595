-- ===== src/Tests/Paging.antt =====
-- Pages, filters and the public API at concrete inputs.
use carbonledger.Base.{String, Bool, true, none, some, [], ◌∷◌, ◌≡◌, refl, arith, str_eq}
use carbonledger.Prisma.Memory.{memory}
use carbonledger.Schema.{ApiKey, Db}
use carbonledger.Paging.Client.{Client, filter, in_memory}
use carbonledger.Paging.Service.{find_all}
use carbonledger.Paging.Walk.{walk, find_all_sees_all}
use carbonledger.Paging.Filters.{
  ProjectRow, ProjectFilters, ListingRow, ListingsQueryDto, SearchProjectsDto, stale,
}
use carbonledger.Paging.PublicApi.{row_id}
use carbonledger.Tests.Samples.{sample}

abbrev row : String → String → ProjectRow
row id project_id = record {
  id = id;
  project_id = project_id;
  name = "Forest";
  description = none;
  methodology = "VCS";
  country = "Kenya";
  status = "Verified";
  vintage_year = 2023;
  last_monitoring_at = none;
  created_at = "2024";
}

abbrev three : Client ProjectRow row_id
three =
    in_memory row_id (row "c1" "p1" ∷ row "c2" "p2" ∷ row "c3" "p3" ∷ []) (refl, (refl, (refl, tt)))

abbrev anything : ProjectRow → Bool
anything r = true

find_all_sees_all_example :
    walk (find_all three anything 0) 4 none ≡ some (filter anything three.table)
find_all_sees_all_example = find_all_sees_all three anything 0 4 (omega arith)

abbrev equal_texts : String → String → Bool
equal_texts s t = str_eq s t

abbrev stale_forests : SearchProjectsDto
stale_forests = record {
  search = some "Forest";
  methodology = "VCS" ∷ [];
  country = [];
  status = [];
  vintage_year = 2023 ∷ [];
  oracle_freshness = some stale;
}

abbrev offer : ListingRow
offer = record {
  id = "m1";
  project_id = "p1";
  project_name = "Forest";
  methodology = "VCS";
  country = "Kenya";
  vintage_year = 2023;
  price_per_credit = "2";
  status = "Active";
}

abbrev between : ListingsQueryDto
between = record {
  methodology = none;
  vintage = 0;
  country = none;
  min_price = some "5";
  max_price = some "9";
  search = none;
}

abbrev no_filters : ProjectFilters
no_filters = record { methodology = none; country = none; vintage = 0 }

abbrev active : ApiKey
active = record { organization_name = "Esg"; contact_email = "a@b.org"; is_active = true }

abbrev keyed : Db memory
keyed = record sample { api_keys = ("cl_7", active) ∷ [] }
