-- ===== src/SelectedChain/Resync.antt =====
-- What a reconnection resumes.
use local_rusty_indexer_poc.Prelude.{
  ◌≡◌, refl, ap, ◌∙◌, true, false, Option, none, some, List, [], ◌∷◌, ◌++◌, ok, if◌then◌else◌,
  Bool-cases, inl, inr,
}
use local_rusty_indexer_poc.Bytes.{Bytes, ◌=ᵇ◌}
use local_rusty_indexer_poc.Headers.Compact.{CompactHeader}
use local_rusty_indexer_poc.Metadata.{Cursor}
use local_rusty_indexer_poc.SelectedChain.{
  SyncState, Answers, DagInfo, HistoricalSyncResult, TargetReachedVia, target_reached, interrupted,
  sync_result, disconnect, connected, process, handle_event, handle_sync_result, handle_disconnect,
  handle_reconnect, attempts, try_initialize_sync, take_cursor, start_from, sync_or_mark_complete,
  start_historical_sync, interrupt_current_task, clear_historical_task,
  process_queued_notifications, handle_interruption,
}

-- what a disconnection leaves
record Disconnected (s d : SyncState) : Type 0 where
  connected : d.is_connected ≡ false
  synced : d.is_synced ≡ false
  queue : d.vcc_queue ≡ []
  spawned : d.spawned ≡ s.spawned
  forwarded : d.forwarded ≡ s.forwarded

handle_disconnect-Disconnected : (s : SyncState) → Disconnected s (handle_disconnect s)
unfolding handle_disconnect interrupt_current_task
handle_disconnect-Disconnected s = elim (Bool-cases s.historical_interrupt_tx) [
  | inl e ↦
      rw e
        (record { connected = refl; synced = refl; queue = refl; spawned = refl; forwarded = refl })
  | inr e ↦
      rw e
        (record { connected = refl; synced = refl; queue = refl; spawned = refl; forwarded = refl })
]

-- where the sync from `c` ends up, in a state that is connected and runs no task
abbrev pub resumed : Cursor → Bytes → CompactHeader → SyncState → SyncState
resumed c sink h s = if c.hash =ᵇ sink then record s { is_synced = true } else record s {
  current_historical_task = true;
  historical_interrupt_tx = true;
  spawned =
      s.spawned
      ++ (c, record { daa_score = h.daa_score; blue_work = h.blue_work; hash = sink }) ∷ [];
}

start_from-resumed :
    (a : Answers) (c : Cursor) (dag : DagInfo) (h : CompactHeader) (s : SyncState)
    → a.header dag.sink ≡ ok h
    → start_from a dag (some c) s ≡ ok (resumed c dag.sink h s)
unfolding start_from sync_or_mark_complete start_historical_sync
start_from-resumed a c dag h s header = elim (Bool-cases (c.hash =ᵇ dag.sink)) [
  | inl e ↦ rw e refl
  | inr e ↦ rw (e, header) refl
]

-- a state that runs no sync and waits with an interrupted position
abbrev pub idle_at : Cursor → SyncState → SyncState
idle_at c s = record s {
  is_synced = false;
  current_historical_task = false;
  historical_interrupt_tx = false;
  pending_interrupted_block = some c;
}

abbrev pub reconnected : SyncState → SyncState
reconnected s = record s { is_connected = true; pending_interrupted_block = none }

try_initialize_sync-resumed :
    (a : Answers) (c : Cursor) (dag : DagInfo) (h : CompactHeader) (s : SyncState)
    → a.dag_info ≡ ok dag
    → a.header dag.sink ≡ ok h
    → try_initialize_sync a (record (idle_at c s) { is_connected = true })
      ≡ (resumed c dag.sink h (reconnected (idle_at c s)), ok tt)
unfolding try_initialize_sync take_cursor
try_initialize_sync-resumed a c dag h s answered header =
    rw (answered, start_from-resumed a c dag h (reconnected (idle_at c s)) header) refl

reconnect-resumed :
    (a : Answers) (later : List Answers) (c : Cursor) (dag : DagInfo) (h : CompactHeader)
    (s : SyncState)
    → a.dag_info ≡ ok dag
    → a.header dag.sink ≡ ok h
    → handle_reconnect (a ∷ later) (idle_at c s)
      ≡ ok (resumed c dag.sink h (reconnected (idle_at c s)))
unfolding handle_reconnect attempts
reconnect-resumed a later c dag h s answered header =
    let done = try_initialize_sync-resumed a c dag h s answered header in
    rw (attempts, done, done) refl

interrupted-waits :
    (r : Answers) (c : Cursor) (d : SyncState)
    → d.is_connected ≡ false
    → handle_sync_result r (some (interrupted c)) d ≡ ok (idle_at c d)
unfolding handle_sync_result handle_interruption clear_historical_task
interrupted-waits r c d h = rw h refl

process-three :
    (r : Answers) (x : Option HistoricalSyncResult) (answers : List Answers) (s t u : SyncState)
    → handle_sync_result r x (handle_disconnect s) ≡ ok t
    → handle_reconnect answers t ≡ ok u
    → process (disconnect ∷ sync_result r x ∷ connected answers ∷ []) s ≡ ok u
unfolding process handle_event
process-three r x answers s t u h k = rw (h, k) refl

-- Whatever the syncer was doing, a disconnection, then the report of the interrupted historical
-- sync, then a connection that gets its answers end in the state that resumes at the interrupted
-- position: a historical sync from there to the node's sink is started, or, when that position is
-- the sink, the state is synced; notifications queued before the disconnection are dropped, and
-- nothing is forwarded.
pub interrupted-resumes :
    (a r : Answers) (later : List Answers) (c : Cursor) (dag : DagInfo) (h : CompactHeader)
    (s : SyncState)
    → a.dag_info ≡ ok dag
    → a.header dag.sink ≡ ok h
    → (s' : SyncState) × (process
          (disconnect ∷ sync_result r (some (interrupted c)) ∷ connected (a ∷ later) ∷ [])
          s
        ≡ ok s')
      × (s'.is_synced ≡ (c.hash =ᵇ dag.sink))
      × (s'.spawned ≡ (
          if c.hash =ᵇ dag.sink
          then s.spawned
          else s.spawned
            ++ (c, record { daa_score = h.daa_score; blue_work = h.blue_work; hash = dag.sink })
              ∷ []))
      × (s'.vcc_queue ≡ [])
      × (s'.forwarded ≡ s.forwarded)
interrupted-resumes a r later c dag h s answered header =
    let d = handle_disconnect s in
    let left = handle_disconnect-Disconnected s in
    (
      resumed c dag.sink h (reconnected (idle_at c d)),
      process-three r (some (interrupted c)) (a ∷ later) s (idle_at c d)
          (resumed c dag.sink h (reconnected (idle_at c d)))
          (interrupted-waits r c d left.connected)
          (reconnect-resumed a later c dag h d answered header),
      elim (Bool-cases (c.hash =ᵇ dag.sink)) [ inl e ↦ rw e refl | inr e ↦ rw e refl ],
      elim (Bool-cases (c.hash =ᵇ dag.sink)) [
        | inl e ↦ rw e left.spawned
        | inr e ↦
            let target : Cursor = record {
              daa_score = h.daa_score;
              blue_work = h.blue_work;
              hash = dag.sink;
            } in
            rw e (ap (λ l. l ++ (c, target) ∷ []) left.spawned)
      ],
      elim (Bool-cases (c.hash =ᵇ dag.sink)) [ inl e ↦ rw e left.queue | inr e ↦ rw e left.queue ],
      elim (Bool-cases (c.hash =ᵇ dag.sink)) [
        | inl e ↦ rw e left.forwarded
        | inr e ↦ rw e left.forwarded
      ],
    )

reconnect-synced :
    (a : Answers) (later : List Answers) (s : SyncState)
    → s.is_synced ≡ true
    → handle_reconnect (a ∷ later) s ≡ ok (record s { is_connected = true })
unfolding handle_reconnect attempts try_initialize_sync
reconnect-synced a later s h = rw h refl

-- what a report that the target was reached leaves
record Reached (d t : SyncState) : Type 0 where
  synced : t.is_synced ≡ true
  task : t.current_historical_task ≡ false
  spawned : t.spawned ≡ d.spawned

target_reached-Reached :
    (r : Answers) (target : Cursor) (via : TargetReachedVia) (d : SyncState)
    → (t : SyncState) × (handle_sync_result r (some (target_reached target via)) d ≡ ok t)
      × Reached d t
unfolding handle_sync_result process_queued_notifications clear_historical_task
target_reached-Reached r target via d = (
  process_queued_notifications r (clear_historical_task (record d { is_synced = true })),
  refl,
  elim (Bool-cases r.worker_open) [
    | inl e ↦ rw e (record { synced = refl; task = refl; spawned = refl })
    | inr e ↦ rw e (record { synced = refl; task = refl; spawned = refl })
  ],
)

-- When the historical sync reports that it reached its target after the disconnection was handled,
-- the syncer counts as synced, and the next connection starts nothing, whatever the node answers:
-- what the chain did while the connection was down is never fetched.
pub late_target-no_resync :
    (r a : Answers) (later : List Answers) (target : Cursor) (via : TargetReachedVia)
    (s : SyncState)
    → (s' : SyncState) × (process
          (disconnect
            ∷ sync_result r (some (target_reached target via))
            ∷ connected (a ∷ later)
            ∷ [])
          s
        ≡ ok s')
      × (s'.is_synced ≡ true)
      × (s'.current_historical_task ≡ false)
      × (s'.spawned ≡ s.spawned)
late_target-no_resync r a later target via s =
    let d = handle_disconnect s in
    let left = handle_disconnect-Disconnected s in
    let (t, ran, reached) = target_reached-Reached r target via d in
    (
      record t { is_connected = true },
      process-three r (some (target_reached target via)) (a ∷ later) s t
          (record t { is_connected = true }) ran (reconnect-synced a later t reached.synced),
      reached.synced,
      reached.task,
      reached.spawned ∙ left.spawned,
    )
