-- ===== src/Periodic/Worker.antt =====
-- `tick_work` and `worker` of indexer-lib/src/periodic_processor.rs. The compaction of the metadata
-- partition changes no content, and the counters for the log are left out. No other writer comes
-- between the parts of a tick here.
use local_rusty_indexer_poc.Prelude.{
  ℕ, Bool, true, false, List, [], ◌∷◌, if◌then◌else◌, Result, ok, err, ◌>>=◌, channel_closed,
}
use local_rusty_indexer_poc.Bytes.{Bytes}
use local_rusty_indexer_poc.Metadata
use local_rusty_indexer_poc.Messages.Address.{TxScript}
use local_rusty_indexer_poc.Resolver.{
  SenderByTxIdAndDaa, ResolverResponse, block_found, block_failed, sender_found, sender_failed,
}
use local_rusty_indexer_poc.Store.{Fjall}
use local_rusty_indexer_poc.Keyspace.{Keyspace}
use local_rusty_indexer_poc.Periodic.{prune_skip_transactions, prune_block_headers}
use local_rusty_indexer_poc.Periodic.DaaResolution.{handle_daa_resolution}
use local_rusty_indexer_poc.Periodic.DaaResolution
use local_rusty_indexer_poc.Periodic.SenderResolution.{Addresses, handle_sender_resolution}
use local_rusty_indexer_poc.Periodic.SenderResolution
use local_rusty_indexer_poc.Periodic.UnknownTxs.{resolve_unknown_tx}
use local_rusty_indexer_poc.Periodic.Asking.{Channel, unknown_daa, unknown_sender}

-- which of the commits of a notification meet a conflict
pub record Lost : Type 0 where
  pub at_response : Bool
  pub at_unknown_tx : Bool
  pub at_unknown_daa : Bool
  pub at_prune_skips : Bool

pub data Notification (Address : Type 0) : Type 0 where
  tick shutdown : Notification Address
  resolver_response : ResolverResponse Address → Notification Address

-- a notification, with whether the application runs when it is asked for, the fate of the commits,
-- the score that the node last reported, and whether the ticker still listens
pub record Event (Address : Type 0) : Type 0 where
  pub is_running : Bool
  pub notification : Notification Address
  pub lost : Lost
  pub virtual_daa : ℕ
  pub is_open : Bool

module _ (db : Fjall) (a : Addresses) (tx : TxScript) (blocks : Channel Bytes)
    (senders : Channel SenderByTxIdAndDaa) where
  pub record PeriodicProcessor : Type 0 where
    pub keyspace : Keyspace db
    pub daa_resolution_attempt_count : ℕ
    pub resolver_request_block_tx : blocks.Queue
    pub resolver_request_sender_tx : senders.Queue
    pub resolver_requests_in_progress : ℕ

  -- `update_metrics`, of which only the errors of its two reads are seen
  unfoldable pub update_metrics : Keyspace db → Result (Unit {0})
  update_metrics ks = do
    _ ← Metadata.get_latest_block_cursor db ks.metadata
    _ ← Metadata.get_latest_accepting_block_cursor db ks.metadata
    ok tt

  unfoldable pub tick_work : ℕ → Lost → PeriodicProcessor → Result PeriodicProcessor
  unfolding resolve_unknown_tx unknown_daa unknown_sender prune_skip_transactions
      prune_block_headers update_metrics
  tick_work virtual_daa lost p = do
    ks1 ← resolve_unknown_tx db p.daa_resolution_attempt_count lost.at_unknown_tx p.keyspace
    (ks2, (block_tx, in_progress)) ←
        unknown_daa db blocks lost.at_unknown_daa
          (ks1, (p.resolver_request_block_tx, p.resolver_requests_in_progress))
    (sender_tx, in_progress') ←
        unknown_sender db senders ks2 (p.resolver_request_sender_tx, in_progress)
    ks3 ← prune_skip_transactions db virtual_daa lost.at_prune_skips ks2
    (headers, index) ← prune_block_headers db virtual_daa (ks3.block_compact_header, ks3.daa_index)
    _ ← update_metrics ks3
    ok (record p {
      keyspace = record ks3 { block_compact_header = headers; daa_index = index };
      resolver_request_block_tx = block_tx;
      resolver_request_sender_tx = sender_tx;
      resolver_requests_in_progress = in_progress';
    })

  -- the two arms of a response
  unfoldable pub handle_response :
      Bool → ResolverResponse a.Address → Keyspace db → Result (Keyspace db)
  unfolding handle_daa_resolution handle_sender_resolution
  handle_response lost (block_found header) ks =
      handle_daa_resolution db lost (DaaResolution.found header) ks
  handle_response lost (block_failed hash) ks =
      handle_daa_resolution db lost (DaaResolution.not_found hash) ks
  handle_response lost (sender_found address i) ks =
      handle_sender_resolution db a tx lost (SenderResolution.found address i) ks
  handle_response lost (sender_failed i) ks =
      handle_sender_resolution db a tx lost (SenderResolution.not_found i) ks

  -- a tick, and the word to the ticker that it is done
  unfoldable pub handle_tick : Event a.Address → PeriodicProcessor → Result PeriodicProcessor
  unfolding tick_work
  handle_tick e p = do
    p' ← tick_work e.virtual_daa e.lost p
    (if e.is_open then ok p' else err channel_closed)

  -- the loop; true if it has returned, false if it still waits for a notification
  unfoldable pub worker :
      List (Event a.Address) → PeriodicProcessor → Result (PeriodicProcessor × Bool)
  unfolding handle_response handle_tick
  worker [] p = ok (p, false)
  worker (e ∷ events) p = elim e.is_running [
    | false ↦ ok (p, true)
    | true ↦ elim e.notification [
      | shutdown ↦ ok (p, true)
      | tick ↦ do p' ← handle_tick e p; worker events p'
      | resolver_response response ↦ do
        ks ← handle_response e.lost.at_response response p.keyspace
        worker events (record p { keyspace = ks })
    ]
  ]
