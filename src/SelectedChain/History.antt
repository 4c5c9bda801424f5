-- ===== src/SelectedChain/History.antt =====
-- `HistoricalSyncer` of indexer-lib/src/selected_chain_syncer.rs: fetching the changes of the
-- selected chain between two cursors; and the syncer's own reads of the database and the node.
use local_rusty_indexer_poc.Prelude.{
  ℕ, ◌+◌, ◌%◌, ◌^◌, Bool, ◌||◌, Option, none, some, List, [], ◌∷◌, ◌++◌, length, last?, ltb,
  if◌then◌else◌, Result, ok, err, ◌>>=◌, app_stopped, panicked, channel_closed,
}
use local_rusty_indexer_poc.Bytes.{Bytes}
use local_rusty_indexer_poc.Headers.Compact
use local_rusty_indexer_poc.Headers.Compact.{CompactHeader}
use local_rusty_indexer_poc.HistoricalSyncer.{has}
use local_rusty_indexer_poc.Metadata
use local_rusty_indexer_poc.Metadata.{Cursor}
use local_rusty_indexer_poc.Progress.{Uint192, log_progress}
use local_rusty_indexer_poc.Resolver.{Status, idle, returned, failed}
use local_rusty_indexer_poc.SelectedChain.{
  HistoricalSyncResult, target_reached, interrupted, direct_match, blue_work_exceeded, DagInfo,
  Answers,
}
use local_rusty_indexer_poc.Store.{Fjall}
use local_rusty_indexer_poc.VirtualChain.{
  VirtualChainChangedNotification, VirtualChainChangedNotificationAndBlueWork,
}

-- what a round of the loop around `get_block` meets
pub data HeaderAttempt : Type 0 where
  app_stops failed_call : HeaderAttempt
  got_block : CompactHeader → HeaderAttempt

-- the loop still waits when the attempts end
unfoldable pub fetch_header : List HeaderAttempt → Option (Result CompactHeader)
fetch_header [] = none
fetch_header (app_stops ∷ attempts) = some (err app_stopped)
fetch_header (failed_call ∷ attempts) = fetch_header attempts
fetch_header (got_block header ∷ attempts) = some (ok header)

-- the header that is stored, or else the node's
unfoldable pub stored_or_fetched :
    List HeaderAttempt → Result (Option CompactHeader) → Option (Result CompactHeader)
unfolding fetch_header
stored_or_fetched attempts (err e) = some (err e)
stored_or_fetched attempts (ok (some header)) = some (ok header)
stored_or_fetched attempts (ok none) = fetch_header attempts

unfoldable pub target_reached_exactly : Cursor → VirtualChainChangedNotification → Bool
target_reached_exactly to vcc =
    has vcc.added_chain_block_hashes to.hash || has vcc.removed_chain_block_hashes to.hash

-- the two tests at the end of a batch
unfoldable pub reached :
    Cursor → Cursor → VirtualChainChangedNotification → Option HistoricalSyncResult
unfolding target_reached_exactly
reached to current vcc =
    if target_reached_exactly to vcc
    then some (target_reached to direct_match)
    else if ltb to.blue_work current.blue_work
    then some (target_reached to (blue_work_exceeded current))
    else none

pub record ChainSyncer : Type 0 where
  pub from : Cursor
  pub to : Cursor
  -- the variable of `sync`
  pub current : Cursor
  pub total_blocks_processed : ℕ
  pub batches_processed : ℕ
  -- what was sent to the worker and to the selected chain syncer, in order
  pub forwarded : List VirtualChainChangedNotificationAndBlueWork
  pub reports : List HistoricalSyncResult

abbrev pub new_syncer : Cursor → Cursor → ChainSyncer
new_syncer from to = record {
  from = from;
  to = to;
  current = from;
  total_blocks_processed = 0;
  batches_processed = 0;
  forwarded = [];
  reports = [];
}

abbrev pub cursor_at : Bytes → CompactHeader → Cursor
cursor_at hash header = record {
  daa_score = header.daa_score;
  blue_work = header.blue_work;
  hash = hash;
}

abbrev pub with_work :
    VirtualChainChangedNotification → CompactHeader → VirtualChainChangedNotificationAndBlueWork
with_work vcc header = record {
  vcc = vcc;
  last_block_blue_work = header.blue_work;
  last_daa_score = header.daa_score;
}

-- the progress of a batch is counted before its last block is looked at
abbrev pub count_batch : VirtualChainChangedNotification → ChainSyncer → ChainSyncer
count_batch vcc s = record s {
  total_blocks_processed =
      (s.total_blocks_processed + length vcc.added_chain_block_hashes) % 2 ^ 64;
  batches_processed = (s.batches_processed + 1) % 2 ^ 64;
}

module _ (db : Fjall) where
  -- what an answer of the node meets: whether the application runs, the answer, the stored headers
  -- and the attempts to fetch one, and whether the two channels are open
  pub record Answer : Type 0 where
    pub is_running : Bool
    pub vcc : Result VirtualChainChangedNotification
    pub block_compact_header : db.Tree
    pub header_attempts : List HeaderAttempt
    pub worker_open : Bool
    pub done_open : Bool

  -- what one round of `sync` meets: the shutdown signal, with whether the results' channel is
  -- open, or the answer of the node
  pub data Turn : Type 0 where
    shutdown : Bool → Turn
    answer : Answer → Turn

  unfoldable pub get_block_compact_header : Answer → Bytes → Option (Result CompactHeader)
  unfolding stored_or_fetched
  get_block_compact_header a block_hash =
      stored_or_fetched a.header_attempts
        (Compact.get_compact_header db a.block_compact_header block_hash)

  -- what follows the header of the last block; the result is that of `process_vcc_result`
  unfoldable pub forward_batch :
      Uint192
      → Answer
      → VirtualChainChangedNotification
      → Bytes
      → CompactHeader
      → ChainSyncer
      → ChainSyncer × Result (Option HistoricalSyncResult)
  unfolding reached log_progress
  forward_batch w a vcc last_block header s =
      let s' : ChainSyncer = record s { current = cursor_at last_block header } in
      let logged =
        log_progress w s'.batches_processed s'.from.blue_work s'.current.blue_work
          s'.to.blue_work in
      elim logged [
        | err e ↦ (s', err e)
        | ok _ ↦
            if a.worker_open
            then (
              record s' { forwarded = s'.forwarded ++ with_work vcc header ∷ [] },
              ok (reached s'.to s'.current vcc),
            )
            else (s', err channel_closed)
      ]

  -- an answered batch; `none` while the header is fetched
  unfoldable pub process_batch :
      Uint192
      → Answer
      → VirtualChainChangedNotification
      → ChainSyncer
      → Option (ChainSyncer × Result (Option HistoricalSyncResult))
  unfolding get_block_compact_header forward_batch
  process_batch w a vcc s = elim (last? vcc.added_chain_block_hashes) [
    | none ↦ some (s, err panicked)
    | some last_block ↦ elim (get_block_compact_header a last_block) [
      | none ↦ none
      | some (err e) ↦ some (s, err e)
      | some (ok header) ↦ some (forward_batch w a vcc last_block header s)
    ]
  ]

  unfoldable pub process_vcc_result :
      Uint192 → Answer → ChainSyncer → Option (ChainSyncer × Result (Option HistoricalSyncResult))
  unfolding process_batch
  process_vcc_result w a s =
      if a.is_running
      then elim a.vcc [
        | err _ ↦ some (s, ok none)
        | ok vcc ↦ process_batch w a vcc (count_batch vcc s)
      ]
      else some (s, err app_stopped)

  -- the report is dropped when its channel is closed
  unfoldable pub report_interruption : Bool → ChainSyncer → ChainSyncer
  report_interruption done_open s =
      if done_open then record s { reports = s.reports ++ interrupted s.current ∷ [] } else s

  -- how a round leaves the loop; `none` while it goes on
  unfoldable pub finish :
      Answer
      → ChainSyncer
      → Option (ChainSyncer × Result (Option HistoricalSyncResult))
      → ChainSyncer × Option Status
  finish a s none = (s, some Status.calling)
  finish a s (some (s', err e)) = (s', some (failed e))
  finish a s (some (s', ok none)) = (s', none)
  finish a s (some (s', ok (some result))) =
      if a.done_open
      then (record s' { reports = s'.reports ++ result ∷ [] }, some returned)
      else (s', some (failed channel_closed))

  unfoldable pub sync_round : Uint192 → Turn → ChainSyncer → ChainSyncer × Option Status
  unfolding process_vcc_result finish report_interruption
  sync_round w (shutdown done_open) s = (report_interruption done_open s, some returned)
  sync_round w (answer a) s = finish a s (process_vcc_result w a s)

  -- the turns that are left over are not met; without one that ends it the loop still waits
  unfoldable pub sync : Uint192 → List Turn → ChainSyncer → ChainSyncer × Status
  unfolding sync_round
  sync w [] s = (s, idle)
  sync w (turn ∷ turns) s =
      let (s', status) = sync_round w turn s in
      elim status [ none ↦ sync w turns s' | some ended ↦ (s', ended) ]

-- What the selected chain syncer itself asks the node: the two answers that it reads, and whether
-- the worker's channel is open.
pub record Node : Type 0 where
  pub get_block_dag_info : Result DagInfo
  pub get_block : Bytes → Result CompactHeader
  pub worker_open : Bool

module _ (db : Fjall) where
  abbrev pub get_last_cursor : db.Tree → Result (Option Cursor)
  get_last_cursor metadata = Metadata.get_latest_accepting_block_cursor db metadata

  abbrev pub get_pruning_point_cursor : Node → Bytes → Result Cursor
  get_pruning_point_cursor node hash = do header ← node.get_block hash; ok (cursor_at hash header)

  -- one call, without a retry
  unfoldable pub get_block_daa_score_and_blue_work : Node → db.Tree → Bytes → Result CompactHeader
  get_block_daa_score_and_blue_work node headers hash = do
    local ← Compact.get_compact_header db headers hash
    elim local [ some compact ↦ ok compact | none ↦ node.get_block hash ]

  -- the answers that the state machine takes, from the database and the node
  unfoldable pub answers_of : Node → db.Tree → db.Tree → Answers
  unfolding get_block_daa_score_and_blue_work
  answers_of node metadata headers = record {
    dag_info = node.get_block_dag_info;
    last_cursor = get_last_cursor metadata;
    pruning_point = get_pruning_point_cursor node;
    header = get_block_daa_score_and_blue_work node headers;
    worker_open = node.worker_open;
  }
