-- ===== src/Genesis/Service.antt =====
-- backend/src/indexer.ts. The contracts' read methods are parameters, `none` for a failed simulation.
use carbonledger.Base.{
  ℕ, String, Bool, ◌||◌, ◌&&◌, Option, List, [], ◌∷◌, ltb, leb, ◌==◌, if◌then◌else◌,
}
use carbonledger.Prisma.{Prisma}
use carbonledger.Schema.{
  ProjectStatus, pending, verified, rejected, suspended, completed, Project, CreditBatch,
  RetirementRecord, MarketListing, delisted, Db,
}
use carbonledger.Action.{Action, service_unavailable, ◌>>=◌, ◌>>◌, pure, or_throw}
use carbonledger.Tables.{projects, batches, retirements, listings, update, upsert}
use carbonledger.Projects.Service.{with_status}
use carbonledger.Credits.Service.{add_retired}
use carbonledger.Webhook.Processor.{add_issued}

-- The enum of the registry, as the five flags that `mapStatus` looks at.
pub record StatusFlags : Type 0 where
  pub is_pending : Bool
  pub is_verified : Bool
  pub is_rejected : Bool
  pub is_suspended : Bool
  pub is_completed : Bool

abbrev pub map_status : StatusFlags → ProjectStatus
map_status s =
    if s.is_pending
    then pending
    else if s.is_verified
    then verified
    else if s.is_rejected
    then rejected
    else if s.is_suspended
    then suspended
    else if s.is_completed
    then completed
    else pending

-- What the contracts answer, as the rows that the script builds from it.
pub record ProjectData : Type 0 where
  pub row : Project
  pub status : StatusFlags

pub record Chain : Type 0 where
  pub get_project : String → Option ProjectData
  pub get_credit_batch : String → Option CreditBatch
  pub get_retirement_certificate : String → Option RetirementRecord
  pub get_listing : String → Option MarketListing

-- Events by their topic, with the data that the handlers take.
pub data Event : Type 0 where
  reg_proj verified_ rejected_ st_update suspended_ minted retired listed delisted_ purchase
        bulk_buy mkt_susp mon_data other :
      String → Event
  transfer : String → String → Event

pub record EventResponse : Type 0 where
  pub ledger : ℕ
  pub tx_index : ℕ
  pub event : Event

-- `a.ledger - b.ledger || a.txIndex - b.txIndex` is not positive.
abbrev pub not_after : EventResponse → EventResponse → Bool
not_after a b = ltb a.ledger b.ledger || a.ledger == b.ledger && leb a.tx_index b.tx_index

-- `allEvents.sort(...)`: the sort of the language is stable, so that its result is the one below.
unfoldable pub insert : EventResponse → List EventResponse → List EventResponse
insert a [] = a ∷ []
insert a (b ∷ events) = if not_after a b then a ∷ b ∷ events else b ∷ insert a events

unfoldable pub sort : List EventResponse → List EventResponse
unfolding insert
sort [] = []
sort (a ∷ events) = insert a (sort events)

abbrev pub registered : String → ProjectData → Project
registered id d = record d.row { project_id = id; status = map_status d.status }

-- The update of a project keeps the columns that the script does not give, and so does that of a
-- retirement record.
abbrev pub reregistered : String → ProjectData → Project → Project
reregistered id d row = record (registered id d) { methodology_score = row.methodology_score }

abbrev pub recorded : String → RetirementRecord → RetirementRecord → RetirementRecord
recorded id d row = record d {
  retirement_id = id;
  serial_start = row.serial_start;
  serial_end = row.serial_end;
  certificate_cid = row.certificate_cid;
  is_valid = row.is_valid;
}

abbrev pub with_listing : MarketListing → MarketListing → MarketListing
with_listing d row = record row { amount_available = d.amount_available; status = d.status }

module _ (prisma : Prisma) (chain : Chain) where
  abbrev pub read : {A : Type 0} → Option A → Action (Db prisma) A
  read answer = or_throw answer service_unavailable

  abbrev pub set_status : String → ProjectStatus → Action (Db prisma) (Unit {0})
  set_status id status = update (projects prisma) id (with_status status) >> pure tt

  unfoldable pub handle_register_project : String → Action (Db prisma) (Unit {0})
  handle_register_project id = do
    d ← read (chain.get_project id)
    upsert (projects prisma) id (reregistered id d) (registered id d)

  unfoldable pub handle_status_update : String → Action (Db prisma) (Unit {0})
  handle_status_update id = do d ← read (chain.get_project id); set_status id (map_status d.status)

  unfoldable pub handle_minted : String → Action (Db prisma) (Unit {0})
  handle_minted batch_id = do
    d ← read (chain.get_credit_batch batch_id)
    upsert (batches prisma) batch_id (λ _. record d { batch_id = batch_id })
        (record d { batch_id = batch_id })
    update (projects prisma) d.project_id (add_issued d.amount)
    pure tt

  unfoldable pub handle_retired : String → Action (Db prisma) (Unit {0})
  handle_retired retirement_id = do
    d ← read (chain.get_retirement_certificate retirement_id)
    upsert (retirements prisma) retirement_id (recorded retirement_id d)
        (record d { retirement_id = retirement_id })
    update (projects prisma) d.project_id (add_retired d.amount)
    pure tt

  -- The column `owner` that the script writes is not in the table of the batches, nor in the model.
  unfoldable pub handle_transfer : String → String → Action (Db prisma) (Unit {0})
  handle_transfer batch_id to = update (batches prisma) batch_id (λ row. row) >> pure tt

  unfoldable pub handle_listed : String → Action (Db prisma) (Unit {0})
  handle_listed listing_id = do
    d ← read (chain.get_listing listing_id)
    upsert (listings prisma) listing_id (λ _. record d { listing_id = listing_id })
        (record d { listing_id = listing_id })

  unfoldable pub handle_delisted : String → Action (Db prisma) (Unit {0})
  handle_delisted listing_id =
      update (listings prisma) listing_id (λ row. record row { status = delisted }) >> pure tt

  unfoldable pub handle_purchase : String → Action (Db prisma) (Unit {0})
  handle_purchase listing_id = do
    d ← read (chain.get_listing listing_id)
    update (listings prisma) listing_id (with_listing d)
    pure tt

  unfoldable pub index_event : Event → Action (Db prisma) (Unit {0})
  unfolding handle_register_project handle_status_update handle_minted handle_retired
      handle_transfer handle_listed handle_delisted handle_purchase
  index_event (reg_proj id) db = handle_register_project id db
  index_event (verified_ id) db = set_status id verified db
  index_event (rejected_ id) db = set_status id rejected db
  index_event (st_update id) db = handle_status_update id db
  index_event (suspended_ id) db = set_status id suspended db
  index_event (minted id) db = handle_minted id db
  index_event (retired id) db = handle_retired id db
  index_event (transfer id to) db = handle_transfer id to db
  index_event (listed id) db = handle_listed id db
  index_event (delisted_ id) db = handle_delisted id db
  index_event (purchase id) db = handle_purchase id db
  index_event (bulk_buy id) db = handle_purchase id db
  index_event (mkt_susp id) db = (pure tt) db
  index_event (mon_data id) db = (pure tt) db
  index_event (other topic) db = (pure tt) db

  -- The loop of `main`: the first event that throws ends it.
  unfoldable pub index_all : List EventResponse → Action (Db prisma) (Unit {0})
  unfolding index_event
  index_all [] db = (pure tt) db
  index_all (response ∷ events) db = (index_event response.event >>= λ _. index_all events) db

  unfoldable pub main_ : List EventResponse → Action (Db prisma) (Unit {0})
  unfolding index_all sort
  main_ all_events = index_all (sort all_events)
