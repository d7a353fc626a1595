-- ===== src/Tables/Laws.antt =====
-- What each call of the client does, by whether its row is there.
use carbonledger.Base.{String, ◌≡◌, ◌≢◌, Option, none, some, arith, str_eq, eq_iff, if◌then◌else◌}
use carbonledger.Prisma.{Prisma, upserted}
use carbonledger.Schema.{Db}
use carbonledger.Action.{ok, err, unique_violation, record_missing}
use carbonledger.Tables.{Table, create, update, update_many}

module _ {prisma : Prisma} {V : Type 0} (table : Table prisma V) where
  pub create_free :
      (k : String) (v : V) (db : Db prisma)
      → prisma.find_unique k (table.view db) ≡ none
      → create table k v db ≡ (ok tt, table.put (prisma.upsert k (λ row. row) v (table.view db)) db)
  unfolding create
  create_free k v db e = rw (prisma.create_free k v (table.view db) e, create)

  pub create_taken :
      {row : V} (k : String) (v : V) (db : Db prisma)
      → prisma.find_unique k (table.view db) ≡ some row
      → create table k v db ≡ (err unique_violation, db)
  unfolding create
  create_taken k v db e = rw (prisma.create_taken k v (table.view db) e, create)

  pub update_found :
      {row : V} (k : String) (f : V → V) (db : Db prisma)
      → prisma.find_unique k (table.view db) ≡ some row
      → update table k f db ≡ (ok (f row), table.put (prisma.upsert k f row (table.view db)) db)
  unfolding update
  update_found {row} k f db e = ground (
    arith,
    prisma.update_found k f (table.view db) e,
    prisma.find-upsert_self k f row (table.view db),
  )

  pub update_missing :
      (k : String) (f : V → V) (db : Db prisma)
      → prisma.find_unique k (table.view db) ≡ none
      → update table k f db ≡ (err record_missing, db)
  unfolding update
  update_missing k f db e = rw (prisma.update_missing k f (table.view db) e, update)

-- A row that is not there is left out of `updateMany`.
abbrev pub changed : {V : Type 0} → Option V → (V → V) → Option V
changed none f = none
changed (some row) f = some (f row)

module _ {prisma : Prisma} {V : Type 0} (table : Table prisma V) where
  pub update_many_found :
      {row : V} (k : String) (f : V → V) (db : Db prisma)
      → prisma.find_unique k (table.view db) ≡ some row
      → update_many table k f db ≡ (ok tt, table.put (prisma.upsert k f row (table.view db)) db)
  unfolding update_many
  update_many_found k f db e = rw (prisma.update_found k f (table.view db) e, update_many)

  pub update_many_missing :
      (k : String) (f : V → V) (db : Db prisma)
      → prisma.find_unique k (table.view db) ≡ none
      → update_many table k f db ≡ (ok tt, db)
  unfolding update_many
  update_many_missing k f db e = rw (prisma.update_missing k f (table.view db) e, update_many)

-- The row of any key after an `upsert`.
pub find-upsert :
    (prisma : Prisma) {V : Type 0} (j k : String) (f : V → V) (v : V) (t : prisma.Rows V)
    → prisma.find_unique j (prisma.upsert k f v t) ≡ (
        if str_eq k j then some (upserted (prisma.find_unique k t) f v) else prisma.find_unique j t)
find-upsert prisma j k f v t = ground (
  arith,
  eq_iff k j,
  prisma.find-upsert_self k f v t,
  λ (ne : j ≢ k). prisma.find-upsert_ne j k f v t ne,
)
