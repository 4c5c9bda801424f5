-- ===== src/HistoricalSyncer.antt =====
-- indexer-lib/src/historical_syncer.rs: fetching the blocks between two cursors. The answers of the
-- node are given to `sync` as the list of what each round of its loop meets.
pub mod Shown
pub mod Batched
pub mod Target
pub mod Outcome
pub mod Ending
pub mod Fetching
use local_rusty_indexer_poc.Prelude.{
  ℕ, ◌+◌, ◌%◌, ◌^◌, Bool, true, false, not, ◌&&◌, ◌||◌, Option, none, some, List, [], ◌∷◌, ◌++◌,
  length, is_empty, leb, ◌==◌, if◌then◌else◌, Result, ok, err, Error, ◌>>=◌,
}
use local_rusty_indexer_poc.Bytes.{Bytes, ◌=ᵇ◌}
use local_rusty_indexer_poc.Headers.Gaps.{BlockGap, from_cursors, add_gap, remove_gap}
use local_rusty_indexer_poc.Metadata.{Cursor}
use local_rusty_indexer_poc.Progress.{Uint192, log_progress}
use local_rusty_indexer_poc.Store.{Fjall}

-- `RpcBlockVerboseData` and `RpcBlock`, as far as the syncer reads them
pub record VerboseData : Type 0 where
  pub is_chain_block : Bool
  pub merge_set_blues_hashes : List Bytes
  pub merge_set_reds_hashes : List Bytes

pub record RpcBlock : Type 0 where
  pub header : Cursor
  pub verbose_data : Option VerboseData

pub data SyncTargetStatus : Type 0 where
  not_reached : Cursor → SyncTargetStatus
  target_found_directly target_found_via_anticone : SyncTargetStatus

-- the positions that a batch changes
pub record Position : Type 0 where
  pub current_cursor : Cursor
  pub target_cursor : Cursor
  pub anticone_candidates : List Cursor

-- `contains` on a list of hashes
abbrev pub has : List Bytes → Bytes → Bool
has [] hash = false
has (h ∷ hs) hash = h =ᵇ hash || has hs hash

abbrev pub in_merge_sets : VerboseData → Bytes → Bool
in_merge_sets v hash = has v.merge_set_blues_hashes hash || has v.merge_set_reds_hashes hash

abbrev pub any_candidate : VerboseData → List Cursor → Bool
any_candidate v [] = false
any_candidate v (c ∷ cs) = in_merge_sets v c.hash || any_candidate v cs

unfoldable pub check_target_in_merge_sets : Position → VerboseData → Bool
check_target_in_merge_sets p v =
    if in_merge_sets v p.target_cursor.hash then true else any_candidate v p.anticone_candidates

-- a block that is not on the selected chain, with at least the target's blue work
unfoldable pub candidate : Position → RpcBlock → VerboseData → Bool
candidate p block v = leb p.target_cursor.blue_work block.header.blue_work && not v.is_chain_block

abbrev pub push_candidate : Position → Cursor → Position
push_candidate p c = record p { anticone_candidates = p.anticone_candidates ++ c ∷ [] }

-- One block of the fold: `none` to continue, the status when the target is found, and the position.
unfoldable pub fold_block : Position → RpcBlock → Option SyncTargetStatus × Position
unfolding check_target_in_merge_sets candidate
fold_block p block =
    if block.header.hash =ᵇ p.target_cursor.hash
    then (some target_found_directly, p)
    else elim block.verbose_data [
      | none ↦ (none, p)
      | some v ↦
          if v.is_chain_block && check_target_in_merge_sets p v
          then (some target_found_via_anticone, p)
          else if candidate p block v
          then (none, push_candidate p block.header)
          else (none, p)
    ]

-- `fold_while`: the status, the last cursor and the position
unfoldable pub fold_blocks :
    List RpcBlock → SyncTargetStatus → Cursor → Position → SyncTargetStatus × Cursor × Position
unfolding fold_block
fold_blocks [] status last_cursor p = (status, last_cursor, p)
fold_blocks (block ∷ blocks) status last_cursor p =
    let (found, p') = fold_block p block in
    let rest = fold_blocks blocks (not_reached block.header) block.header p' in
    elim found [ some s ↦ (s, block.header, p') | none ↦ rest ]

unfoldable pub process_blocks_batch : List RpcBlock → Position → SyncTargetStatus × Position
unfolding fold_blocks
process_blocks_batch blocks p =
    if is_empty blocks
    then (not_reached p.current_cursor, p)
    else let (status, last_cursor, p') =
        fold_blocks blocks (not_reached p.current_cursor) p.current_cursor p in
      elim status [
        | not_reached cursor ↦ (not_reached cursor, record p' { current_cursor = cursor })
        | target_found_directly ↦
            (target_found_directly, record p' { current_cursor = last_cursor })
        | target_found_via_anticone ↦
            (target_found_via_anticone, record p' { current_cursor = last_cursor })
      ]

unfoldable pub is_sync_complete : SyncTargetStatus → Bool
is_sync_complete (not_reached _) = false
is_sync_complete target_found_directly = true
is_sync_complete target_found_via_anticone = true

-- what one round of the loop meets: the shutdown signal (or its closed channel), or a batch with
-- whether the block handler takes it, or an error of the request
pub data Round : Type 0 where
  shutdown : Round
  shutdown_closed : Round
  batch : List RpcBlock → Bool → Round
  failed : Error → Round

module _ (db : Fjall) where
  pub record HistoricalDataSyncer : Type 0 where
    pub from_cursor : Cursor
    pub position : Position
    pub block_gaps : db.Tree
    -- the batches that the block handler was sent, in order
    pub sent : List (List RpcBlock)
    pub total_blocks_processed : ℕ
    pub batches_processed : ℕ

  abbrev pub same_gap : BlockGap → BlockGap → Bool
  same_gap a b =
      a.from_daa_score == b.from_daa_score
      && a.from_blue_work == b.from_blue_work
      && a.from_block_hash =ᵇ b.from_block_hash
      && a.to_blue_work == b.to_blue_work
      && a.to_block_hash =ᵇ b.to_block_hash
      && a.to_daa_score == b.to_daa_score

  -- the gap that remains replaces the one that the sync started with
  unfoldable pub shrink_gap : HistoricalDataSyncer → HistoricalDataSyncer
  shrink_gap s =
      let new_gap = from_cursors s.position.current_cursor s.position.target_cursor in
      let old_gap = from_cursors s.from_cursor s.position.target_cursor in
      if not (same_gap new_gap old_gap)
      then record s { block_gaps = remove_gap db (add_gap db s.block_gaps new_gap) old_gap }
      else s

  unfoldable pub close_gap : HistoricalDataSyncer → HistoricalDataSyncer
  close_gap s = record s {
    block_gaps = remove_gap db s.block_gaps (from_cursors s.from_cursor s.position.target_cursor);
  }

  -- the rounds that are left over are not met; without a round that ends it the loop still waits
  pub data Ended : Type 0 where
    returned waiting : Ended
    error : Error → Ended

  unfoldable pub sync : Uint192 → List Round → HistoricalDataSyncer → HistoricalDataSyncer × Ended
  unfolding process_blocks_batch is_sync_complete shrink_gap close_gap log_progress
  sync w [] s = (s, waiting)
  sync w (shutdown ∷ rounds) s = (shrink_gap s, returned)
  sync w (shutdown_closed ∷ rounds) s = (s, error Error.channel_closed)
  sync w (failed e ∷ rounds) s = (s, error e)
  sync w (batch blocks taken ∷ rounds) s =
      let (status, position) = process_blocks_batch blocks s.position in
      let s' : HistoricalDataSyncer = record s {
        position = position;
        sent = s.sent ++ blocks ∷ [];
        total_blocks_processed = (s.total_blocks_processed + length blocks) % 2 ^ 64;
        batches_processed = (s.batches_processed + 1) % 2 ^ 64;
      } in
      let logged =
        log_progress w s'.batches_processed s.from_cursor.blue_work
          position.current_cursor.blue_work position.target_cursor.blue_work in
      let rest = sync w rounds s' in
      if not taken
      then (record s { position = position }, error Error.channel_closed)
      else elim logged [
        | err e ↦ (s', error e)
        | ok _ ↦ if is_sync_complete status then (close_gap s', returned) else rest
      ]
