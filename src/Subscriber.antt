-- ===== src/Subscriber.antt =====
-- indexer-lib/src/subscriber.rs: the connections to the node, the notifications that are passed on,
-- and the gaps in the history that a connection opens. What the node answers, and whether the
-- channels are open, are given.
pub mod Deliveries
pub mod Reconnect
use local_rusty_indexer_poc.Prelude.{
  ℕ, ◌+◌, ◌-◌, ◌*◌, ◌%◌, ◌^◌, Bool, true, false, Option, none, some, List, [], ◌∷◌, ◌++◌, map, ltb,
  if◌then◌else◌, Result, ok, err, Error, ◌>>=◌, panicked, channel_closed,
}
use local_rusty_indexer_poc.Bytes.{Bytes}
use local_rusty_indexer_poc.Headers.Compact.{CompactHeader}
use local_rusty_indexer_poc.Headers.Gaps.{BlockGap, from_cursors, add_gap, get_all_gaps_since_daa}
use local_rusty_indexer_poc.HistoricalSyncer.{RpcBlock}
use local_rusty_indexer_poc.Metadata.{Cursor}
use local_rusty_indexer_poc.Periodic.{rk_pruning_depth}
use local_rusty_indexer_poc.Resolver.{Status, idle, returned, failed}
use local_rusty_indexer_poc.SelectedChain.History.{cursor_at}
use local_rusty_indexer_poc.Store.{Fjall}
use local_rusty_indexer_poc.VirtualChain.{VirtualChainChangedNotification}

-- `Intake` of indexer-lib/src/selected_chain_syncer.rs
pub data Intake : Type 0 where
  virtual_chain_changed_notification : VirtualChainChangedNotification → Intake
  disconnect connected : Intake

-- the node's notifications
pub data Notification : Type 0 where
  block_added : RpcBlock → Notification
  virtual_chain_changed : VirtualChainChangedNotification → Notification
  virtual_daa_score_changed : ℕ → Notification
  other : Notification

-- `get_block_dag_info`, as far as it is read
pub record BlockDagInfo : Type 0 where
  pub sink : Bytes
  pub pruning_point_hash : Bytes
  pub virtual_daa_score : ℕ

-- what a connection meets: whether the syncer's channel is open, the listener that is registered,
-- the answers of the node, and what comes of the new attempt to connect after an error
pub record Connection : Type 0 where
  pub intake_open : Bool
  pub new_listener : ℕ
  pub notify_blocks : Result (Unit {0})
  pub notify_daa : Result (Unit {0})
  pub notify_chain : Result (Unit {0})
  pub get_block_dag_info : Result BlockDagInfo
  pub get_block : Bytes → Result CompactHeader
  pub reconnects : Result (Unit {0})

-- what a disconnection meets
pub record Disconnection : Type 0 where
  pub unregisters : Result (Unit {0})
  pub is_open : Bool

-- what the loop meets: the shutdown signal or its closed channel, a change of the connection, a
-- notification with whether the channel it is passed on to is open, and the end of each channel
pub data Event : Type 0 where
  shutdown shutdown_closed : Event
  connect : Connection → Event
  disconnected : Disconnection → Event
  ctl_closed : Event
  notification : Notification → Bool → Event
  notification_closed : Event

-- steps that change a state and may fail: an error keeps the state
abbrev pub and_then : {S A B : Type 0} → S × Result A → (A → S → S × Result B) → S × Result B
and_then (s, ok a) next = next a s
and_then (s, err e) next = (s, err e)

-- `collect::<Result<Vec<_>, _>>()`
unfoldable pub collect_results : {A : Type 0} → List (Result A) → Result (List A)
collect_results [] = ok []
collect_results (r ∷ rs) = do a ← r; rest ← collect_results rs; ok (a ∷ rest)

-- the ends of a gap
abbrev pub gap_ends : BlockGap → Cursor × Cursor
gap_ends g = (
  record { daa_score = g.from_daa_score; blue_work = g.from_blue_work; hash = g.from_block_hash },
  record { daa_score = g.to_daa_score; blue_work = g.to_blue_work; hash = g.to_block_hash },
)

-- `virtual_daa_score - RK_PRUNING_DEPTH * 2` and `last.daa_score + RK_PRUNING_DEPTH * 2`, which
-- wrap in a release build
abbrev pub gaps_since : ℕ → ℕ
gaps_since virtual_daa_score = (virtual_daa_score + (2 ^ 64 - rk_pruning_depth * 2)) % 2 ^ 64

abbrev pub kept_until : ℕ → ℕ
kept_until daa_score = (daa_score + rk_pruning_depth * 2) % 2 ^ 64

module _ (db : Fjall) where
  pub record Subscriber : Type 0 where
    pub listener_id : Option ℕ
    pub last_block_cursor : Option Cursor
    -- the historical syncers that were started, each with the sender of its shutdown signal
    pub historical_data_syncer_shutdown_tx : List (Cursor × Cursor)
    pub block_gaps : db.Tree
    pub virtual_daa : ℕ
    pub had_first_connect : Bool
    -- what was sent to the selected chain syncer and to the block handler, in order, and the
    -- historical syncers that were sent the signal
    pub intakes : List Intake
    pub blocks : List RpcBlock
    pub stopped : List (Cursor × Cursor)

  -- `selected_chain_syncer.send(…).await?`
  unfoldable pub send_intake : Bool → Intake → Subscriber → Subscriber × Result (Unit {0})
  send_intake is_open intake s =
      if is_open
      then (record s { intakes = s.intakes ++ intake ∷ [] }, ok tt)
      else (s, err channel_closed)

  unfoldable pub register_notification_listeners :
      Connection → Subscriber → Subscriber × Result (Unit {0})
  register_notification_listeners c s = (
    record s { listener_id = some c.new_listener },
    do _ ← c.notify_blocks; _ ← c.notify_daa; c.notify_chain,
  )

  -- with no block processed before, the history begins at the pruning point
  unfoldable pub default_cursor :
      Connection → BlockDagInfo → Subscriber → Subscriber × Result (Unit {0})
  default_cursor c info s = elim s.last_block_cursor [
    | some _ ↦ (s, ok tt)
    | none ↦ elim (c.get_block info.pruning_point_hash) [
      | err e ↦ (s, err e)
      | ok header ↦
          (record s { last_block_cursor = some (cursor_at info.pruning_point_hash header) }, ok tt)
    ]
  ]

  -- a historical syncer for each gap that is recorded
  unfoldable pub start_syncers : BlockDagInfo → Subscriber → Subscriber × Result (Unit {0})
  unfolding collect_results
  start_syncers info s =
      elim (collect_results
        (get_all_gaps_since_daa db s.block_gaps (gaps_since info.virtual_daa_score))) [
          | err e ↦ (s, err e)
          | ok gaps ↦ (
            record s {
              historical_data_syncer_shutdown_tx =
                  s.historical_data_syncer_shutdown_tx ++ map gap_ends gaps;
              had_first_connect = true;
            },
            ok tt,
          )
        ]

  unfoldable pub first_connect :
      Connection → BlockDagInfo → Subscriber → Subscriber × Result (Unit {0})
  unfolding default_cursor start_syncers
  first_connect c info s =
      if s.had_first_connect
      then (s, ok tt)
      else and_then (default_cursor c info s) (λ _ s'. start_syncers info s')

  -- the gap from the last block to the sink; the cursor is taken whether it is recent or not
  unfoldable pub open_gap : BlockDagInfo → CompactHeader → Subscriber → Subscriber
  open_gap info sink_header s = elim s.last_block_cursor [
    | none ↦ s
    | some last ↦
        let sink = cursor_at info.sink sink_header in
        if ltb info.virtual_daa_score (kept_until last.daa_score)
        then record s {
          last_block_cursor = none;
          block_gaps = add_gap db s.block_gaps (from_cursors last sink);
          historical_data_syncer_shutdown_tx =
              s.historical_data_syncer_shutdown_tx ++ (last, sink) ∷ [];
        }
        else record s { last_block_cursor = none }
  ]

  unfoldable pub handle_connect_impl : Connection → Subscriber → Subscriber × Result (Unit {0})
  unfolding send_intake register_notification_listeners first_connect open_gap
  handle_connect_impl c s = and_then (send_intake c.intake_open connected s) (λ _ s1.
      and_then (register_notification_listeners c s1) (λ _ s2.
        and_then (s2, c.get_block_dag_info)
          (λ info s3.
            and_then (s3, c.get_block info.sink)
              (λ sink_header s4.
                and_then (first_connect c info s4)
                  (λ _ s5. (open_gap info sink_header s5, ok tt))))))

  -- after an error the client connects anew, and the error is still returned
  unfoldable pub handle_connect : Connection → Subscriber → Subscriber × Result (Unit {0})
  unfolding handle_connect_impl
  handle_connect c s =
      let (s', done) = handle_connect_impl c s in
      (s', elim done [ ok _ ↦ ok tt | err e ↦ do _ ← c.reconnects; err e ])

  unfoldable pub unregister_notification_listener :
      Disconnection → Subscriber → Subscriber × Result (Unit {0})
  unregister_notification_listener d s = elim s.listener_id [
    | none ↦ (s, ok tt)
    | some _ ↦ (record s { listener_id = none }, d.unregisters)
  ]

  unfoldable pub handle_disconnect : Disconnection → Subscriber → Subscriber × Result (Unit {0})
  unfolding unregister_notification_listener send_intake
  handle_disconnect d s =
      and_then (unregister_notification_listener d s) (λ _ s'. send_intake d.is_open disconnect s')

  unfoldable pub handle_notification :
      Notification → Bool → Subscriber → Subscriber × Result (Unit {0})
  unfolding send_intake
  handle_notification (block_added block) is_open s =
      if is_open
      then (
        record s { blocks = s.blocks ++ block ∷ []; last_block_cursor = some block.header },
        ok tt,
      )
      else (s, err channel_closed)
  handle_notification (virtual_chain_changed vcc) is_open s =
      send_intake is_open (virtual_chain_changed_notification vcc) s
  handle_notification (virtual_daa_score_changed daa) is_open s =
      (record s { virtual_daa = daa }, ok tt)
  handle_notification other is_open s = (s, ok tt)

  -- each started syncer is sent the signal
  unfoldable pub handle_shutdown : Subscriber → Subscriber
  handle_shutdown s = record s {
    historical_data_syncer_shutdown_tx = [];
    stopped = s.stopped ++ s.historical_data_syncer_shutdown_tx;
  }

  -- One turn of the loop, and how it leaves it; `none` while it goes on. An error of a handler is
  -- only logged.
  unfoldable pub handle_event : Event → Subscriber → Subscriber × Option Status
  unfolding handle_shutdown handle_connect handle_disconnect handle_notification
  handle_event shutdown s = (handle_shutdown s, some returned)
  handle_event shutdown_closed s = (s, some (failed channel_closed))
  handle_event (connect c) s = ((handle_connect c s).0, none)
  handle_event (disconnected d) s = ((handle_disconnect d s).0, none)
  handle_event ctl_closed s = (s, some (failed panicked))
  handle_event (notification n is_open) s = ((handle_notification n is_open s).0, none)
  handle_event notification_closed s = (s, some (failed panicked))

  unfoldable pub task : List Event → Subscriber → Subscriber × Status
  unfolding handle_event
  task [] s = (s, idle)
  task (e ∷ events) s =
      let (s', status) = handle_event e s in
      elim status [ none ↦ task events s' | some ended ↦ (s', ended) ]
