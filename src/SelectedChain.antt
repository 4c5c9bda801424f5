-- ===== src/SelectedChain.antt =====
-- `SelectedChainSyncer` of indexer-lib/src/selected_chain_syncer.rs: the state machine that decides
-- between forwarding a notification, queueing it, and fetching the chain's history. What the node,
-- the database and the channel answer while an event is handled is part of the event.
pub mod Resync
pub mod Queueing
pub mod History
pub mod Followed
use local_rusty_indexer_poc.Prelude.{
  ℕ, suc, ◌+◌, ◌%◌, ◌^◌, Bool, true, false, not, ◌&&◌, Option, none, some, List, [], ◌∷◌, ◌++◌,
  length, is_empty, last?, ltb, if◌then◌else◌, Result, ok, err, Error, ◌>>=◌, or_fail, app_stopped,
  panicked, channel_closed,
}
use local_rusty_indexer_poc.Bytes.{Bytes, ◌=ᵇ◌}
use local_rusty_indexer_poc.Headers.Compact.{CompactHeader}
use local_rusty_indexer_poc.Metadata.{Cursor}
use local_rusty_indexer_poc.VirtualChain.{
  VirtualChainChangedNotification, VirtualChainChangedNotificationAndBlueWork,
}

pub data TargetReachedVia : Type 0 where
  direct_match : TargetReachedVia
  blue_work_exceeded : Cursor → TargetReachedVia

pub data HistoricalSyncResult : Type 0 where
  target_reached : Cursor → TargetReachedVia → HistoricalSyncResult
  interrupted : Cursor → HistoricalSyncResult

-- `get_block_dag_info`, as far as it is read
pub record DagInfo : Type 0 where
  pub sink : Bytes
  pub pruning_point_hash : Bytes

-- the answers of the node and the database, and whether the worker's channel is open
pub record Answers : Type 0 where
  pub dag_info : Result DagInfo
  pub last_cursor : Result (Option Cursor)
  -- `get_block` of the pruning point
  pub pruning_point : Bytes → Result Cursor
  -- `get_block_daa_score_and_blue_work`
  pub header : Bytes → Result CompactHeader
  pub worker_open : Bool

pub record SyncState : Type 0 where
  pub is_synced : Bool
  pub is_connected : Bool
  pub vcc_queue : List VirtualChainChangedNotificationAndBlueWork
  -- whether there is a task, and whether its interrupt sender is still there
  pub current_historical_task : Bool
  pub historical_interrupt_tx : Bool
  pub pending_interrupted_block : Option Cursor
  -- `self.queue_pow`, a `u32` that wraps, like the power of two it is the exponent of
  pub queue_pow : ℕ
  -- what happened outside: the notifications sent to the worker, the historical syncs started, and
  -- the interrupts sent
  pub forwarded : List VirtualChainChangedNotificationAndBlueWork
  pub spawned : List (Cursor × Cursor)
  pub interrupts : ℕ

-- `SyncState::default()` with nothing done yet
abbrev pub initial : SyncState
initial = record {
  is_synced = false;
  is_connected = false;
  vcc_queue = [];
  current_historical_task = false;
  historical_interrupt_tx = false;
  pending_interrupted_block = none;
  queue_pow = 10;
  forwarded = [];
  spawned = [];
  interrupts = 0;
}

unfoldable pub clear_historical_task : SyncState → SyncState
clear_historical_task s = record s {
  current_historical_task = false;
  historical_interrupt_tx = false;
}

unfoldable pub interrupt_current_task : SyncState → SyncState
interrupt_current_task s =
    if s.historical_interrupt_tx
    then record s { historical_interrupt_tx = false; interrupts = suc s.interrupts }
    else s

-- `spawn_historical_syncer` needs the header of the sink
unfoldable pub start_historical_sync : Answers → Cursor → Bytes → SyncState → Result SyncState
start_historical_sync a from sink s = do
  c ← a.header sink
  ok (record s {
    current_historical_task = true;
    historical_interrupt_tx = true;
    spawned =
        s.spawned
        ++ (from, record { daa_score = c.daa_score; blue_work = c.blue_work; hash = sink }) ∷ [];
  })

unfoldable pub sync_or_mark_complete : Answers → Cursor → Bytes → SyncState → Result SyncState
unfolding start_historical_sync
sync_or_mark_complete a cursor sink s =
    if cursor.hash =ᵇ sink
    then ok (record s { is_synced = true })
    else start_historical_sync a cursor sink s

-- Where a sync would start from: an interrupted position is taken out of the state first.
unfoldable pub take_cursor : Answers → SyncState → Result (Option Cursor) × SyncState
take_cursor a s = elim s.pending_interrupted_block [
  | some c ↦ (ok (some c), record s { pending_interrupted_block = none })
  | none ↦ (a.last_cursor, s)
]

-- the start from a cursor, or from the pruning point without one
unfoldable pub start_from : Answers → DagInfo → Option Cursor → SyncState → Result SyncState
unfolding sync_or_mark_complete start_historical_sync
start_from a dag_info (some cursor) s = sync_or_mark_complete a cursor dag_info.sink s
start_from a dag_info none s = do
  from ← a.pruning_point dag_info.pruning_point_hash
  start_historical_sync a from dag_info.sink s

-- The state after the call, and its result: a failed attempt keeps what it took out.
unfoldable pub try_initialize_sync : Answers → SyncState → SyncState × Result (Unit {0})
unfolding take_cursor start_from
try_initialize_sync a s =
    if not s.is_synced && not s.current_historical_task
    then elim a.dag_info [
      | err e ↦ (s, err e)
      | ok dag_info ↦
          let (cursor, s') = take_cursor a s in
          elim cursor [
            | err e ↦ (s', err e)
            | ok from ↦ elim (start_from a dag_info from s') [
              | err e ↦ (s', err e)
              | ok s'' ↦ (s'', ok tt)
            ]
          ]
    ]
    else (s, ok tt)

-- the loop of `handle_reconnect`: one attempt for each set of answers, until the app is stopped
unfoldable pub attempts : List Answers → SyncState → Result SyncState
unfolding try_initialize_sync
attempts [] s = err app_stopped
attempts (a ∷ later) s =
    let (s', done) = try_initialize_sync a s in
    let rest = attempts later s' in elim done [ ok _ ↦ ok s' | err _ ↦ rest ]

unfoldable pub handle_reconnect : List Answers → SyncState → Result SyncState
unfolding attempts
handle_reconnect answers s = attempts answers (record s { is_connected = true })

unfoldable pub handle_disconnect : SyncState → SyncState
unfolding interrupt_current_task
handle_disconnect s =
    record (interrupt_current_task (record s { is_connected = false; is_synced = false })) {
      vcc_queue = [];
    }

-- a failed send drops the rest of the queue
unfoldable pub process_queued_notifications : Answers → SyncState → SyncState
process_queued_notifications a s =
    if a.worker_open
    then record s { forwarded = s.forwarded ++ s.vcc_queue; vcc_queue = [] }
    else record s { vcc_queue = [] }

unfoldable pub handle_interruption : Answers → Cursor → SyncState → Result SyncState
unfolding sync_or_mark_complete
handle_interruption a last_processed_block s =
    if s.is_connected
    then (do dag_info ← a.dag_info; sync_or_mark_complete a last_processed_block dag_info.sink s)
    else ok (record s { pending_interrupted_block = some last_processed_block })

-- `none` is the closed channel
unfoldable pub handle_sync_result :
    Answers → Option HistoricalSyncResult → SyncState → Result SyncState
unfolding clear_historical_task process_queued_notifications handle_interruption
handle_sync_result a none s = err channel_closed
handle_sync_result a (some (target_reached target via)) s =
    ok (process_queued_notifications a (clear_historical_task (record s { is_synced = true })))
handle_sync_result a (some (interrupted last_processed_block)) s =
    handle_interruption a last_processed_block
      (clear_historical_task (record s { is_synced = false }))

-- forward when synced, queue when not
unfoldable pub route :
    Answers → VirtualChainChangedNotificationAndBlueWork → SyncState → Result SyncState
route a n s =
    if s.is_synced
    then (if a.worker_open
        then ok (record s { forwarded = s.forwarded ++ n ∷ [] })
        else err channel_closed)
    else ok (record s {
      vcc_queue = s.vcc_queue ++ n ∷ [];
      queue_pow =
          if ltb ((2 ^ s.queue_pow) % 2 ^ 32) (length (s.vcc_queue ++ n ∷ []))
          then (s.queue_pow + 1) % 2 ^ 32
          else s.queue_pow;
    })

unfoldable pub handle_vcc_notification :
    Answers → VirtualChainChangedNotification → SyncState → Result SyncState
unfolding route
handle_vcc_notification a vcc s =
    if is_empty vcc.removed_chain_block_hashes && is_empty vcc.added_chain_block_hashes
    then ok s
    else (do
      last_block ← or_fail (last? vcc.added_chain_block_hashes) panicked
      c ← a.header last_block
      route a
          (record { vcc = vcc; last_block_blue_work = c.blue_work; last_daa_score = c.daa_score })
          s)

-- what the loop of `process` meets: a sync result, or one of the three kinds of `Intake`, with the
-- answers given while it is handled
pub data Event : Type 0 where
  sync_result : Answers → Option HistoricalSyncResult → Event
  disconnect : Event
  connected : List Answers → Event
  virtual_chain_changed : Answers → VirtualChainChangedNotification → Event

unfoldable pub handle_event : Event → SyncState → Result SyncState
unfolding handle_sync_result handle_disconnect handle_reconnect handle_vcc_notification
handle_event (sync_result a r) s = handle_sync_result a r s
handle_event disconnect s = ok (handle_disconnect s)
handle_event (connected answers) s = handle_reconnect answers s
handle_event (virtual_chain_changed a vcc) s = handle_vcc_notification a vcc s

unfoldable pub process : List Event → SyncState → Result SyncState
unfolding handle_event
process [] s = ok s
process (e ∷ es) s = do s' ← handle_event e s; process es s'

-- the shutdown signal, and the closed intake channel
unfoldable pub handle_shutdown : SyncState → SyncState
unfolding interrupt_current_task
handle_shutdown s = record (interrupt_current_task s) { current_historical_task = false }
