-- ===== src/Indexer/Sync.antt =====
-- backend/src/indexer/indexer.service.ts: the cursor and the flag over the polls, and what a failed
-- event costs.
use carbonledger.Base.{
  ℕ, ◌+◌, ◌≤◌, false, none, some, List, [], ◌∷◌, ◌≡◌, refl, arith, Option-cases,
}
use carbonledger.Prisma.{Prisma}
use carbonledger.Indexer.Rows.{Event, Retired, retired}
use carbonledger.Indexer.Service.{
  State, Node, metadata_of, sync_from, sync, handle_cron, process_events,
}
use carbonledger.Indexer.Events.{after-retired_missing}

module _ (prisma : Prisma) (decimal_text : ℕ → List ℕ) where
  -- Polls, one after the other, each with the answers that the node has for it.
  unfoldable pub polls : List Node → State prisma → State prisma
  polls [] s = s
  polls (node ∷ nodes) s = polls nodes (handle_cron prisma decimal_text node s)

  abbrev pub cursor : State prisma → ℕ
  cursor s = metadata_of s.last_indexed_ledger

  pub sync_mono :
      (node : Node) (s : State prisma) → cursor s ≤ cursor (sync prisma decimal_text node s)
  unfolding sync sync_from
  sync_mono node s =
      ground
        (arith, Option-cases node.get_latest_ledger, Option-cases (node.get_events (cursor s + 1)))

  pub sync_ends :
      (node : Node) (s : State prisma) → (sync prisma decimal_text node s).is_indexing ≡ false
  unfolding sync
  sync_ends node s = refl

  -- Whatever the node answers to the polls that start with the flag down, the cursor never goes
  -- back, and the flag is down again after them.
  pub polls_mono :
      (nodes : List Node) (s : State prisma)
      → s.is_indexing ≡ false
      → (cursor s ≤ cursor (polls nodes s)) × ((polls nodes s).is_indexing ≡ false)
  unfolding polls handle_cron
  polls_mono [] s down = (omega arith, down)
  polls_mono (node ∷ nodes) s down =
      let (later, ended) =
        polls_mono nodes (handle_cron prisma decimal_text node s) (ground arith) in
      (ground (arith, sync_mono node s, later), ended)

  -- A retirement of a batch that is not stored is lost: where the node answers its event first, the
  -- sync ends in the very state that it ends in without the event, cursor included.
  pub missing_batch_loses_event :
      (node : Node) (data_ : Retired) (events : List Event) (s : State prisma)
      → prisma.find_unique data_.batch_id s.db.batches ≡ none
      → node.get_events (cursor s + 1) ≡ some (retired data_ ∷ events)
      → sync prisma decimal_text node s
        ≡ sync prisma decimal_text (record node { get_events = λ _. some events }) s
  unfolding sync sync_from process_events
  missing_batch_loses_event node data_ events s missing answer = ground (
    arith,
    Option-cases node.get_latest_ledger,
    after-retired_missing prisma decimal_text data_ s.db missing,
  )
