-- ===== src/Processing/Skip.antt =====
-- indexer-lib/src/database/processing/skipped_transactions.rs and skipped_tx_by_block.rs
use local_rusty_indexer_poc.Prelude.{
  ℕ, Bool, true, false, Option, none, some, List, [], ◌∷◌, ◌++◌, map, is_empty, if◌then◌else◌,
  Result, ok, ◌>>=◌,
}
use local_rusty_indexer_poc.Bytes.{Bytes}
use local_rusty_indexer_poc.Bytes.Endian.{to_be_bytes}
use local_rusty_indexer_poc.Store.{Fjall, Entry}
use local_rusty_indexer_poc.Keys.Layout.{join}
use local_rusty_indexer_poc.Processing.TxIds
use local_rusty_indexer_poc.Processing.TxIds.{view}

abbrev pub is_some : Option Bytes → Bool
is_some none = false
is_some (some _) = true

-- the key of the by-block partition: the score in big-endian order, then the hash
unfoldable pub by_block_key : ℕ → Bytes → Bytes
by_block_key daa_score block_hash = to_be_bytes 8 daa_score ++ block_hash

-- the closure of `get_entries_to_prune`
unfoldable pub prune_entry : Entry → Result (Bytes × Bytes)
prune_entry (key, value) = do ids ← TxIds.new value; ok (key, ids)

module _ (db : Fjall) where
  open db use {Tree, get, insert, remove, range_to}

  unfoldable pub mark_skip : Tree → Bytes → Tree
  mark_skip t tx_id = insert t tx_id []

  unfoldable pub should_skip : Tree → Bytes → Bool
  should_skip t tx_id = is_some (get t tx_id)

  unfoldable pub remove_skip : Tree → Bytes → Tree
  remove_skip t tx_id = remove t tx_id

  unfoldable pub mark_skip_batch : Tree → List Bytes → Tree
  unfolding mark_skip
  mark_skip_batch t [] = t
  mark_skip_batch t (tx_id ∷ tx_ids) = mark_skip_batch (mark_skip t tx_id) tx_ids

  unfoldable pub check_skip_batch : Tree → List Bytes → List (Bytes × Bool)
  unfolding should_skip
  check_skip_batch t tx_ids = map (λ tx_id. (tx_id, should_skip t tx_id)) tx_ids

  unfoldable pub add_skip_for_block : Tree → ℕ → Bytes → List Bytes → Tree
  unfolding by_block_key
  add_skip_for_block t daa_score block_hash tx_ids =
      if is_empty tx_ids then t else insert t (by_block_key daa_score block_hash) (join tx_ids)

  unfoldable pub get_skips_for_block : Tree → ℕ → Bytes → Result (Option Bytes)
  unfolding by_block_key
  get_skips_for_block t daa_score block_hash = view (get t (by_block_key daa_score block_hash))

  unfoldable pub get_entries_to_prune : Tree → Bytes → List (Result (Bytes × Bytes))
  unfolding prune_entry
  get_entries_to_prune t prune_before_daa = map prune_entry (range_to t prune_before_daa)

  unfoldable pub remove_block : Tree → ℕ → Bytes → Tree
  unfolding by_block_key
  remove_block t daa_score block_hash = remove t (by_block_key daa_score block_hash)

  unfoldable pub remove_by_raw_key : Tree → Bytes → Tree
  remove_by_raw_key t raw_key = remove t raw_key
