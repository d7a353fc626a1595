-- ===== src/Tables.antt =====
-- The calls of the database client as actions on the whole database, one lens for each table.
pub mod Laws
use carbonledger.Base.{String, Bool, Option, none, some}
use carbonledger.Prisma.{Prisma}
use carbonledger.Schema.{
  Db, Project, CreditBatch, RetirementRecord, MarketListing, User, VerifierApplication, IpfsFile,
  ApiKey,
}
use carbonledger.Action.{Action, Result, ok, err, unique_violation, record_missing}

-- Where a table stands in the database.
pub record Table (prisma : Prisma) (V : Type 0) : Type 0 where
  pub view : Db prisma → prisma.Rows V
  pub put : prisma.Rows V → Db prisma → Db prisma

module _ (prisma : Prisma) where
  abbrev pub projects : Table prisma Project
  projects = record { view = λ db. db.projects; put = λ t db. record db { projects = t } }

  abbrev pub batches : Table prisma CreditBatch
  batches = record { view = λ db. db.batches; put = λ t db. record db { batches = t } }

  abbrev pub retirements : Table prisma RetirementRecord
  retirements = record { view = λ db. db.retirements; put = λ t db. record db { retirements = t } }

  abbrev pub listings : Table prisma MarketListing
  listings = record { view = λ db. db.listings; put = λ t db. record db { listings = t } }

  abbrev pub users : Table prisma User
  users = record { view = λ db. db.users; put = λ t db. record db { users = t } }

  abbrev pub applications : Table prisma VerifierApplication
  applications = record {
    view = λ db. db.applications;
    put = λ t db. record db { applications = t };
  }

  abbrev pub files : Table prisma IpfsFile
  files = record { view = λ db. db.files; put = λ t db. record db { files = t } }

  abbrev pub api_keys : Table prisma ApiKey
  api_keys = record { view = λ db. db.api_keys; put = λ t db. record db { api_keys = t } }

module _ {prisma : Prisma} {V : Type 0} (table : Table prisma V) where
  unfoldable pub find_unique : String → Action (Db prisma) (Option V)
  find_unique k db = (ok (prisma.find_unique k (table.view db)), db)

  unfoldable pub find_first : (V → Bool) → Action (Db prisma) (Option V)
  find_first where_ db = (ok (prisma.find_first where_ (table.view db)), db)

  unfoldable pub create : String → V → Action (Db prisma) (Unit {0})
  create k v db = elim (prisma.create k v (table.view db)) [
    | none ↦ (err unique_violation, db)
    | some t ↦ (ok tt, table.put t db)
  ]

  -- The client returns the row as it is stored after the update.
  unfoldable pub update : String → (V → V) → Action (Db prisma) V
  update k f db = elim (prisma.update k f (table.view db)) [
    | none ↦ (err record_missing, db)
    | some t ↦ elim (prisma.find_unique k t) [
      | none ↦ (err record_missing, db)
      | some v ↦ (ok v, table.put t db)
    ]
  ]

  unfoldable pub upsert : String → (V → V) → V → Action (Db prisma) (Unit {0})
  upsert k f v db = (ok tt, table.put (prisma.upsert k f v (table.view db)) db)

  -- `updateMany` with a unique key in its `where`: no row is no error.
  unfoldable pub update_many : String → (V → V) → Action (Db prisma) (Unit {0})
  update_many k f db = elim (prisma.update k f (table.view db)) [
    | none ↦ (ok tt, db)
    | some t ↦ (ok tt, table.put t db)
  ]
