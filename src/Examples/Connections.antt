-- ===== src/Examples/Connections.antt =====
-- Examples for the subscriber's connections and for the historical sync of the selected chain.
use local_rusty_indexer_poc.Prelude.{
  ◌≡◌, refl, true, false, none, some, List, [], ◌∷◌, ◌++◌, map, ok, err, rpc_failed,
}
use local_rusty_indexer_poc.Headers.Compact.{CompactHeader}
use local_rusty_indexer_poc.Headers.Gaps.{add_gaps_batch}
use local_rusty_indexer_poc.Metadata.{Cursor}
use local_rusty_indexer_poc.Resolver.{idle}
use local_rusty_indexer_poc.SelectedChain.History.{Answer, failed_call, got_block}
use local_rusty_indexer_poc.SelectedChain.Followed.{header_at, Passed, refused, batch}
use local_rusty_indexer_poc.Store.Memory.{memory}
use local_rusty_indexer_poc.Subscriber.{
  block_added, virtual_daa_score_changed, BlockDagInfo, Connection, Disconnection, connect,
  disconnected, Subscriber, task,
}
use local_rusty_indexer_poc.Subscriber.Deliveries.{Delivery, event}
use local_rusty_indexer_poc.Subscriber.Reconnect.{gap_of, to_fetch, reconnect-gap}
use local_rusty_indexer_poc.VirtualChain.{VirtualChainChangedNotification}
use local_rusty_indexer_poc.Examples.Base.{work, blank, id_b, id_c, cursor_a, cursor_b}

-- a block is taken, and a later one is not; then the connection is lost and made anew
abbrev deliveries : List Delivery
deliveries =
    (block_added (record { header = cursor_a; verbose_data = none }), true)
    ∷ (virtual_daa_score_changed 12, true)
    ∷ (block_added (record { header = cursor_b; verbose_data = none }), false)
    ∷ []

abbrev lost : Disconnection
lost = record { unregisters = err rpc_failed; is_open = true }

abbrev sink : CompactHeader
sink = record { blue_work = 120; daa_score = 12 }

abbrev info : BlockDagInfo
info = record { sink = id_c; pruning_point_hash = id_b; virtual_daa_score = 13 }

abbrev anew : Connection
anew = record {
  intake_open = true;
  new_listener = 2;
  notify_blocks = ok tt;
  notify_daa = ok tt;
  notify_chain = ok tt;
  get_block_dag_info = ok info;
  get_block = λ hash. ok sink;
  reconnects = ok tt;
}

abbrev subscriber : Subscriber memory
subscriber = record {
  listener_id = some 1;
  last_block_cursor = none;
  historical_data_syncer_shutdown_tx = [];
  block_gaps = blank;
  virtual_daa = 11;
  had_first_connect = true;
  intakes = [];
  blocks = [];
  stopped = [];
}

reconnect-gap_example :
    (s' : Subscriber memory) × (task memory
        (map event deliveries ++ disconnected lost ∷ connect anew ∷ [])
        subscriber
      ≡ (s', idle))
    × (s'.last_block_cursor ≡ none)
    × (s'.block_gaps
        ≡ add_gaps_batch memory blank (map gap_of (to_fetch info sink (some cursor_a))))
    × (s'.historical_data_syncer_shutdown_tx ≡ to_fetch info sink (some cursor_a))
reconnect-gap_example =
    reconnect-gap memory deliveries lost anew info sink subscriber refl (record {
      open_ = refl;
      blocks = refl;
      daa = refl;
      chain = refl;
      dag = refl;
      sink_block = refl;
    })

-- changes of the chain: one on the way, and one that adds the target
abbrev on_the_way : VirtualChainChangedNotification
on_the_way = record {
  removed_chain_block_hashes = [];
  added_chain_block_hashes = id_c ∷ [];
  accepted_transaction_ids = [];
}

abbrev at_the_target : VirtualChainChangedNotification
at_the_target = record {
  removed_chain_block_hashes = id_c ∷ [];
  added_chain_block_hashes = id_b ∷ [];
  accepted_transaction_ids = [];
}

abbrev cursor_c : Cursor
cursor_c = record { daa_score = 10; blue_work = 105; hash = id_c }

-- an answer whose header is fetched at the second attempt
abbrev answer_with : VirtualChainChangedNotification → Cursor → Answer memory
answer_with vcc c = record {
  is_running = true;
  vcc = ok vcc;
  block_compact_header = blank;
  header_attempts = failed_call ∷ got_block (header_at c) ∷ [];
  worker_open = true;
  done_open = true;
}

abbrev no_answer : Answer memory
no_answer = record (answer_with on_the_way cursor_c) { vcc = err rpc_failed }

abbrev passed : List (Passed memory work)
passed =
    refused no_answer rpc_failed ∷ batch (answer_with on_the_way cursor_c) on_the_way cursor_c ∷ []
