-- ===== src/SelectedChain/Followed.antt =====
-- What the historical sync of the selected chain sends, and how it ends.
use local_rusty_indexer_poc.Prelude.{
  ℕ, ◌≡◌, true, none, some, List, [], ◌∷◌, ◌++◌, last?, ok, err, Error, panicked,
}
use local_rusty_indexer_poc.Headers.Compact.{CompactHeader}
use local_rusty_indexer_poc.Metadata.{Cursor}
use local_rusty_indexer_poc.Progress.{Uint192, percentage}
use local_rusty_indexer_poc.Resolver.{Status, returned, failed}
use local_rusty_indexer_poc.SelectedChain.{HistoricalSyncResult, interrupted}
use local_rusty_indexer_poc.SelectedChain.History.{
  Answer, Turn, shutdown, answer, ChainSyncer, with_work, count_batch, reached,
  get_block_compact_header,
}
use local_rusty_indexer_poc.Store.{Fjall}
use local_rusty_indexer_poc.VirtualChain.{
  VirtualChainChangedNotification, VirtualChainChangedNotificationAndBlueWork,
}

abbrev pub header_at : Cursor → CompactHeader
header_at c = record { blue_work = c.blue_work; daa_score = c.daa_score }

module _ (db : Fjall) (w : Uint192) where
  -- an answer with a batch that ends at a cursor: the header of its last block can be had, the share
  -- of the work that is done there can be computed, and the worker takes it
  pub record IsBatch (from to : Cursor) (a : Answer db) (vcc : VirtualChainChangedNotification)
      (c : Cursor) : Type 0 where
    pub percent : ℕ
    pub computed : percentage w from.blue_work c.blue_work to.blue_work ≡ ok percent
    pub running : a.is_running ≡ true
    pub answered : a.vcc ≡ ok vcc
    pub last : last? vcc.added_chain_block_hashes ≡ some c.hash
    pub known : get_block_compact_header db a c.hash ≡ some (ok (header_at c))
    pub taken : a.worker_open ≡ true

  -- a turn that the sync passes: a failed call, or a batch
  pub data Passed : Type 0 where
    refused : Answer db → Error → Passed
    batch : Answer db → VirtualChainChangedNotification → Cursor → Passed

  abbrev pub turn_of : Passed → Turn db
  turn_of (refused a e) = answer a
  turn_of (batch a vcc c) = answer a

  abbrev pub IsPassed : Cursor → Cursor → Passed → Type 0
  IsPassed from to (refused a e) = (a.is_running ≡ true) × (a.vcc ≡ err e)
  IsPassed from to (batch a vcc c) = IsBatch from to a vcc c × (reached to c vcc ≡ none)

  -- what some turns send to the worker, and where they leave the sync
  abbrev pub sent : List Passed → List VirtualChainChangedNotificationAndBlueWork
  sent [] = []
  sent (refused a e ∷ xs) = sent xs
  sent (batch a vcc c ∷ xs) = with_work vcc (header_at c) ∷ sent xs

  abbrev pub position : Cursor → List Passed → Cursor
  position c [] = c
  position c (refused a e ∷ xs) = position c xs
  position c (batch a vcc c' ∷ xs) = position c' xs

  -- the turn that ends it: a batch that reaches the target, the shutdown signal, or an answer
  -- without an added block
  pub data Ending : Type 0 where
    at_target : Answer db → VirtualChainChangedNotification → Cursor → HistoricalSyncResult → Ending
    at_shutdown : Ending
    at_nothing : Answer db → VirtualChainChangedNotification → Ending

  abbrev pub IsEnding : Cursor → Cursor → Ending → Type 0
  IsEnding from to (at_target a vcc c result) =
      IsBatch from to a vcc c × (reached to c vcc ≡ some result) × (a.done_open ≡ true)
  IsEnding from to at_shutdown = Unit
  IsEnding from to (at_nothing a vcc) =
      (a.is_running ≡ true) × (a.vcc ≡ ok vcc) × (last? vcc.added_chain_block_hashes ≡ none)

  abbrev pub last_turn : Ending → Turn db
  last_turn (at_target a vcc c result) = answer a
  last_turn at_shutdown = shutdown true
  last_turn (at_nothing a vcc) = answer a

  abbrev pub last_sent : Ending → List VirtualChainChangedNotificationAndBlueWork
  last_sent (at_target a vcc c result) = with_work vcc (header_at c) ∷ []
  last_sent at_shutdown = []
  last_sent (at_nothing a vcc) = []

  abbrev pub reported : Cursor → Ending → List HistoricalSyncResult
  reported current (at_target a vcc c result) = result ∷ []
  reported current at_shutdown = interrupted current ∷ []
  reported current (at_nothing a vcc) = []

  abbrev pub status_of : Ending → Status
  status_of (at_target a vcc c result) = returned
  status_of at_shutdown = returned
  status_of (at_nothing a vcc) = failed panicked

  -- the state after a batch is sent
  abbrev after_batch : VirtualChainChangedNotification → Cursor → ChainSyncer → ChainSyncer
  after_batch vcc c s = record (count_batch vcc s) {
    current = c;
    forwarded = s.forwarded ++ with_work vcc (header_at c) ∷ [];
  }

  -- where some turns lead: the rest of the loop, what was sent, and what was reported
  record Led (from to c : Cursor) (xs : List Passed) (s s' : ChainSyncer) : Type 0 where
    start : s'.from ≡ from
    target : s'.to ≡ to
    place : s'.current ≡ position c xs
    sends : s'.forwarded ≡ s.forwarded ++ sent xs
    reports : s'.reports ≡ s.reports
