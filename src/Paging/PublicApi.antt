-- ===== src/Paging/PublicApi.antt =====
-- backend/src/public-api: the projects page by page, batches and certificates, and the keys.
use carbonledger.Base.{
  ℕ, zero, suc, ◌<◌, ◌==◌, ◌&&◌, min, String, ◌≡◌, ◌↔◌, inl, inr, Option-cases, Bool, true, false,
  not, Option, none, some, List, [], ◌∷◌, length, str_eq, if◌then◌else◌, arith,
}
use Prim.Native.String
use carbonledger.Prisma.{Prisma}
use carbonledger.Schema.{CreditBatch, RetirementRecord, ApiKey, Db}
use carbonledger.Action.{Action, ok, not_found, unauthorized, ◌>>=◌, ◌>>◌, pure, or_throw, throw_if}
use carbonledger.Tables.{batches, retirements, api_keys, find_unique, create}
use carbonledger.Tables.Laws.{create_free}
use carbonledger.Paging.Client.{Client, is_id_in}
use carbonledger.Paging.Filters.{ProjectRow, ProjectFilters, projects_where}

abbrev pub row_id : ProjectRow → String
row_id row = row.id

unfoldable pub last : List ProjectRow → Option ProjectRow
last [] = none
last (row ∷ []) = some row
last (row ∷ next ∷ rows) = last (next ∷ rows)

pub record Listed : Type 0 where
  pub data_ : List ProjectRow
  pub count : ℕ
  pub next_cursor : Option String

unfoldable pub verified_where : ProjectFilters → ProjectRow → Bool
unfolding projects_where
verified_where filters row = str_eq row.status "Verified" && projects_where filters row

-- An empty cursor is none.
abbrev pub cursor_of : Option String → Option String
cursor_of none = none
cursor_of (some c) = if str_eq c "" then none else some c

abbrev pub project_id_of? : Option ProjectRow → Option String
project_id_of? none = none
project_id_of? (some row) = some row.project_id

-- `limit ? Math.min(Number(limit), 100) : 20`
abbrev pub limit_of : Option ℕ → ℕ
limit_of none = 20
limit_of (some limit) = min limit 100

module _ (client : Client ProjectRow row_id) where
  unfoldable pub list_projects : ProjectFilters → ℕ → Option String → Listed
  unfolding verified_where last
  list_projects filters limit cursor =
      let projects = client.find_many (verified_where filters) limit (cursor_of cursor) in
      record {
        data_ = projects;
        count = length projects;
        next_cursor = if length projects == limit then project_id_of? (last projects) else none;
      }

  -- The handler of `GET v1/projects`.
  abbrev pub list : ProjectFilters → Option ℕ → Option String → Listed
  list filters limit cursor = list_projects filters (limit_of limit) cursor

  -- The cursor of a page is no identifier of a row where project identifiers and row identifiers
  -- differ: the page after it is empty, and it says that there is no other.
  pub public_pages_stop :
      (filters : ProjectFilters) (limit : ℕ) (cursor : Option String) (c : String)
      → 0 < limit
      → (list_projects filters limit cursor).next_cursor ≡ some c
      → is_id_in row_id c client.table ≡ false
      → str_eq c "" ≡ false
      → list_projects filters limit (some c) ≡ record { data_ = []; count = 0; next_cursor = none }
  unfolding list_projects
  public_pages_stop filters zero cursor c h e missing named = absurd (omega arith)
  public_pages_stop filters (suc n) cursor c h e missing named =
      ground (arith, client.find_missing (verified_where filters) (suc n) c missing)

module _ (prisma : Prisma) where
  unfoldable pub get_credit_batch : String → Action (Db prisma) CreditBatch
  unfolding find_unique
  get_credit_batch batch_id = do
    batch ← find_unique (batches prisma) batch_id
    or_throw batch (not_found "Credit batch not found")

  pub record Verified : Type 0 where
    pub retirement : RetirementRecord
    pub ipfs_url : Option String

  abbrev pub url_of : Option String → Option String
  url_of none = none
  url_of (some cid) =
      if str_eq cid "" then none else some (String.◌++◌ "https://gateway.pinata.cloud/ipfs/" cid)

  unfoldable pub verify_certificate : String → Action (Db prisma) Verified
  unfolding find_unique
  verify_certificate retirement_id = do
    found ← find_unique (retirements prisma) retirement_id
    r ← or_throw found (not_found "Certificate not found")
    pure (record { retirement = r; ipfs_url = url_of r.certificate_cid })

  -- `key` is the random part, as the runtime's library gives it.
  unfoldable pub create_api_key : String → String → String → Action (Db prisma) String
  unfolding create
  create_api_key key organization_name contact_email =
      create (api_keys prisma) (String.◌++◌ "cl_" key) (record {
        organization_name = organization_name;
        contact_email = contact_email;
        is_active = true;
      })
      >> pure (String.◌++◌ "cl_" key)

  -- `ApiKeyGuard`: an absent header and an empty one are refused alike.
  unfoldable pub can_activate : Option String → Action (Db prisma) ApiKey
  unfolding find_unique
  can_activate header = do
    key ← or_throw header (unauthorized "API key required")
    throw_if (str_eq key "") (unauthorized "API key required")
    found ← find_unique (api_keys prisma) key
    row ← or_throw found (unauthorized "Invalid or inactive API key")
    throw_if (not row.is_active) (unauthorized "Invalid or inactive API key")
    pure row

  -- The guard lets a request pass exactly where its header names a stored key that is active, and
  -- it changes nothing.
  pub api_key_guard_iff :
      (key : String) (row : ApiKey) (db : Db prisma)
      → ((can_activate (some key) db ≡ (ok row, db)) ↔ (
          (str_eq key "" ≡ false)
          × (prisma.find_unique key db.api_keys ≡ some row)
          × (row.is_active ≡ true)))
        × ((can_activate (some key) db).1 ≡ db)
  unfolding can_activate
  api_key_guard_iff key row db = elim (Option-cases (prisma.find_unique key db.api_keys)) [
    | inl missing ↦ (ground (arith, missing), ground (arith, missing))
    | inr (r, found) ↦ (ground (arith, found), ground (arith, found))
  ]

  -- A key that was made opens the interface until it is made inactive.
  pub created_key_opens :
      (key organization_name contact_email : String) (db : Db prisma)
      → prisma.find_unique {V = ApiKey} (String.◌++◌ "cl_" key) db.api_keys ≡ none
      → str_eq (String.◌++◌ "cl_" key) "" ≡ false
      → let (result, db') = create_api_key key organization_name contact_email db in
        (result ≡ ok (String.◌++◌ "cl_" key))
        × (can_activate (some (String.◌++◌ "cl_" key)) db' ≡ (
          ok (record {
            organization_name = organization_name;
            contact_email = contact_email;
            is_active = true;
          }),
          db',
        ))
  unfolding create_api_key can_activate
  created_key_opens key organization_name contact_email db fresh named =
      let row : ApiKey = record {
        organization_name = organization_name;
        contact_email = contact_email;
        is_active = true;
      } in
      let made = create_free (api_keys prisma) (String.◌++◌ "cl_" key) row db fresh in
      let stored = prisma.find-upsert_self (String.◌++◌ "cl_" key) (λ r. r) row db.api_keys in
      (ground (arith, made), ground (arith, made, fresh, stored, named))
