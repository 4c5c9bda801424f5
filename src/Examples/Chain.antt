-- ===== src/Examples/Chain.antt =====
-- Examples for the virtual chain, the chain syncer, the historical syncer and the intersection.
use local_rusty_indexer_poc.Prelude.{
  ℕ, ◌≡◌, refl, Bool, false, true, none, some, List, [], ◌∷◌, ◌++◌, map, retain, ok, err,
  if◌then◌else◌, for_each, for_each_ok, rpc_failed,
}
use local_rusty_indexer_poc.Bytes.{◌=ᵇ◌}
use local_rusty_indexer_poc.Keys.Layout.{join}
use local_rusty_indexer_poc.Headers.Compact.{
  CompactHeader, get_daa_score, get_compact_header_rtx, read_header,
}
use local_rusty_indexer_poc.Store.Memory.{memory, put, without}
use local_rusty_indexer_poc.Store.{lookup}
use local_rusty_indexer_poc.Keyspace.{Keyspace}
use local_rusty_indexer_poc.Processing.TxIds.{as_tx_ids, new, view}
use local_rusty_indexer_poc.Processing.Acceptance.{get_by_tx_id}
use local_rusty_indexer_poc.Processing.AcceptingBlock
use local_rusty_indexer_poc.VirtualChain.{
  VirtualChainChangedNotification, VirtualChainChangedNotificationAndBlueWork,
}
use local_rusty_indexer_poc.VirtualChain.Accept.{
  AcceptedTransactionIds, Accepting, accept_tx, handle_accepted_block,
}
use local_rusty_indexer_poc.VirtualChain.Acceptance.{
  start, unmarked, unknown_ids, Waiting, handle_accepted_block-records,
}
use local_rusty_indexer_poc.VirtualChain.Unaccept.{handle_chain_block_removal, unaccept_all}
use local_rusty_indexer_poc.VirtualChain.Removal.{any_entry, handle_chain_block_removal-clears}
use local_rusty_indexer_poc.SelectedChain.{
  Answers, DagInfo, SyncState, initial, process, disconnect, connected, sync_result, interrupted,
  target_reached, direct_match,
}
use local_rusty_indexer_poc.SelectedChain.Resync.{interrupted-resumes, late_target-no_resync}
use local_rusty_indexer_poc.SelectedChain.Queueing.{Arrival, arrivals, sent_on, queued-forwarded}
use local_rusty_indexer_poc.HistoricalSyncer.{
  RpcBlock, Position, process_blocks_batch, is_sync_complete,
}
use local_rusty_indexer_poc.HistoricalSyncer.Shown.{any_shows}
use local_rusty_indexer_poc.HistoricalSyncer.Target.{
  last_header, process_blocks_batch_complete, process_blocks_batch-progress,
}
use local_rusty_indexer_poc.Intersection.{Ordering, less, equal, greater, intersect}
use local_rusty_indexer_poc.Intersection.Members.{IsOrder, flip, member, intersect-retain}
use local_rusty_indexer_poc.Examples.Base.{keyspace, blank, id_a, id_b, id_c, cursor_a, cursor_b}

-- a block that accepts a transaction nobody has seen
abbrev accepted : AcceptedTransactionIds
accepted = record { accepting_block_hash = id_a; accepted_transaction_ids = id_b ∷ [] }

abbrev accepted_state : Accepting memory
accepted_state =
    elim (for_each (accept_tx memory keyspace id_a none) (unmarked memory keyspace (id_b ∷ []))
      (start memory 5 keyspace)) [ ok s ↦ s | err e ↦ start memory 5 keyspace ]

handle_accepted_block-records_example :
    (wtx' : Keyspace memory) × (handle_accepted_block memory 5 keyspace accepted keyspace ≡ ok wtx')
    × (memory.get wtx'.acceptance_to_tx_id id_a
        ≡ some (join (unmarked memory keyspace (id_b ∷ []))))
    × (memory.get wtx'.unknown_tx id_a
        ≡ some (join (unknown_ids memory keyspace (unmarked memory keyspace (id_b ∷ [])))))
    × Waiting memory none id_a accepted_state.entries wtx'.unknown_accepting_daa
unfolding get_daa_score get_compact_header_rtx read_header memory blank lookup for_each accept_tx
    for_each_ok get_by_tx_id
handle_accepted_block-records_example =
    handle_accepted_block-records memory 5 keyspace keyspace accepted none accepted_state refl refl

-- a chain block whose only transaction has no acceptance entry
abbrev with_block : Keyspace memory
with_block = record keyspace {
  acceptance_to_tx_id = AcceptingBlock.insert_wtx memory blank id_a (id_b ∷ []);
  unknown_tx = memory.insert blank id_a id_b;
}

abbrev removed : Keyspace memory
removed = elim (handle_chain_block_removal memory with_block id_a with_block) [
  | ok wtx ↦ wtx
  | err e ↦ with_block
]

handle_chain_block_removal-clears_example :
    (memory.get removed.acceptance_to_tx_id id_a ≡ none)
    × (memory.get removed.unknown_tx id_a ≡ (
        if any_entry memory with_block (as_tx_ids id_b)
        then none
        else memory.get with_block.unknown_tx id_a))
    × (memory.get removed.unknown_accepting_daa id_a ≡ (
        if any_entry memory with_block (as_tx_ids id_b)
        then none
        else memory.get with_block.unknown_accepting_daa id_a))
unfolding handle_chain_block_removal AcceptingBlock.remove_wtx AcceptingBlock.insert_wtx view new
    memory blank put lookup ◌=ᵇ◌ without get_daa_score get_compact_header_rtx read_header
    unaccept_all for_each for_each_ok as_tx_ids get_by_tx_id
handle_chain_block_removal-clears_example =
    handle_chain_block_removal-clears memory with_block with_block removed id_a id_b refl refl

abbrev answers : Answers
answers = record {
  dag_info = ok (record { sink = id_b; pruning_point_hash = id_c });
  last_cursor = ok none;
  pruning_point = λ h. err rpc_failed;
  header = λ h. ok (record { blue_work = 110; daa_score = 11 });
  worker_open = true;
}

abbrev dag : DagInfo
dag = record { sink = id_b; pruning_point_hash = id_c }

abbrev header : CompactHeader
header = record { blue_work = 110; daa_score = 11 }

interrupted-resumes_example :
    (s' : SyncState) × (process
        (disconnect
          ∷ sync_result answers (some (interrupted cursor_a))
          ∷ connected (answers ∷ [])
          ∷ [])
        initial
      ≡ ok s')
    × (s'.is_synced ≡ (cursor_a.hash =ᵇ id_b))
    × (s'.spawned ≡ (
        if cursor_a.hash =ᵇ id_b
        then []
        else [] ++ (cursor_a, record { daa_score = 11; blue_work = 110; hash = id_b }) ∷ []))
    × (s'.vcc_queue ≡ [])
    × (s'.forwarded ≡ [])
interrupted-resumes_example =
    interrupted-resumes answers answers [] cursor_a dag header initial refl refl

late_target-no_resync_example :
    (s' : SyncState) × (process
        (disconnect
          ∷ sync_result answers (some (target_reached cursor_a direct_match))
          ∷ connected (answers ∷ [])
          ∷ [])
        initial
      ≡ ok s')
    × (s'.is_synced ≡ true)
    × (s'.current_historical_task ≡ false)
    × (s'.spawned ≡ [])
late_target-no_resync_example =
    late_target-no_resync answers answers [] cursor_a direct_match initial

abbrev vcc : VirtualChainChangedNotification
vcc = record {
  removed_chain_block_hashes = [];
  added_chain_block_hashes = id_b ∷ [];
  accepted_transaction_ids = [];
}

abbrev one_arrival : List (Arrival × VirtualChainChangedNotificationAndBlueWork)
one_arrival =
    ((answers, vcc), record { vcc = vcc; last_block_blue_work = 110; last_daa_score = 11 }) ∷ []

queued-forwarded_example :
    (t : SyncState) × (process
        (arrivals one_arrival
          ++ sync_result answers (some (target_reached cursor_b direct_match)) ∷ [])
        initial
      ≡ ok t)
    × (t.forwarded ≡ [] ++ ([] ++ sent_on one_arrival))
    × (t.vcc_queue ≡ [])
    × (t.is_synced ≡ true)
queued-forwarded_example =
    queued-forwarded one_arrival answers cursor_b direct_match initial (refl, tt) refl refl

abbrev pub position : Position
position = record { current_cursor = cursor_a; target_cursor = cursor_b; anticone_candidates = [] }

abbrev pub plain : RpcBlock
plain = record {
  header = record { daa_score = 10; blue_work = 105; hash = id_c };
  verbose_data =
      some
        (record { is_chain_block = true; merge_set_blues_hashes = []; merge_set_reds_hashes = [] });
}

-- a block beside the chain with more blue work than the target, and a chain block that merges it
abbrev pub late : RpcBlock
late = record {
  header = record { daa_score = 12; blue_work = 115; hash = id_a };
  verbose_data =
      some (record {
        is_chain_block = false;
        merge_set_blues_hashes = [];
        merge_set_reds_hashes = [];
      });
}

abbrev pub merging : RpcBlock
merging = record {
  header = record { daa_score = 13; blue_work = 120; hash = id_c };
  verbose_data = some (record {
    is_chain_block = true;
    merge_set_blues_hashes = [];
    merge_set_reds_hashes = id_a ∷ [];
  });
}

process_blocks_batch_complete_example :
    is_sync_complete (process_blocks_batch (late ∷ merging ∷ []) position).0
    ≡ any_shows position (late ∷ merging ∷ [])
process_blocks_batch_complete_example = process_blocks_batch_complete (late ∷ merging ∷ []) position

process_blocks_batch-progress_example :
    (process_blocks_batch (plain ∷ []) position).1.current_cursor
    ≡ last_header (plain ∷ []) cursor_a
unfolding ◌=ᵇ◌
process_blocks_batch-progress_example = process_blocks_batch-progress (plain ∷ []) position refl

-- two keys in order
abbrev compare_bits : Bool → Bool → Ordering
compare_bits false false = equal
compare_bits false true = less
compare_bits true false = greater
compare_bits true true = equal

bits_refl : (a : Bool) → compare_bits a a ≡ equal
bits_refl true = refl
bits_refl false = refl

bits_equal : (a b : Bool) → compare_bits a b ≡ equal → a ≡ b
bits_equal true true h = refl
bits_equal true false h = absurd cc
bits_equal false true h = absurd cc
bits_equal false false h = refl

bits_flip : (a b : Bool) → compare_bits b a ≡ flip (compare_bits a b)
bits_flip true true = refl
bits_flip true false = refl
bits_flip false true = refl
bits_flip false false = refl

bits_trans :
    (a b c : Bool) → compare_bits a b ≡ less → compare_bits b c ≡ less → compare_bits a c ≡ less
bits_trans true true c h k = absurd cc
bits_trans true false c h k = absurd cc
bits_trans false false c h k = absurd cc
bits_trans false true true h k = absurd cc
bits_trans false true false h k = absurd cc

bits_order : IsOrder compare_bits
bits_order = record {
  refl_lem = bits_refl;
  equal_lem = bits_equal;
  flip_lem = bits_flip;
  trans_lem = bits_trans;
}

abbrev left : List (Bool × ℕ)
left = (false, 1) ∷ (true, 2) ∷ []

intersect-retain_example :
    intersect compare_bits (map ok left) (true ∷ [])
    ≡ map ok (retain (λ (e : Bool × ℕ). member compare_bits e.0 (true ∷ [])) left)
intersect-retain_example =
    intersect-retain compare_bits bits_order left (true ∷ []) ((refl, tt), (tt, tt)) (tt, tt)
