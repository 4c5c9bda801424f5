-- ===== src/Periodic.antt =====
-- The two prunings of indexer-lib/src/periodic_processor.rs. `virtual_daa` is the score that the
-- node last reported.
pub mod Pruned
pub mod DaaResolution
pub mod DaaResolved
pub mod SenderResolution
pub mod Attributed
pub mod SenderResolved
pub mod Completed
pub mod UnknownTxs
pub mod UnknownEntries
pub mod UnknownPassed
pub mod UnknownResolved
pub mod Asking
pub mod Asked
pub mod Worker
pub mod Ticker
use local_rusty_indexer_poc.Prelude.{
  ℕ, ◌*◌, ◌-◌, Bool, List, [], ◌∷◌, length, ◌==◌, if◌then◌else◌, Result, ok, err, ◌>>=◌,
  for_each_ok, panicked,
}
use local_rusty_indexer_poc.Bytes.{Bytes}
use local_rusty_indexer_poc.Bytes.Endian.{to_be_bytes}
use local_rusty_indexer_poc.Store.{Fjall}
use local_rusty_indexer_poc.Keyspace.{Keyspace, commit}
use local_rusty_indexer_poc.Headers.Compact.{remove_header}
use local_rusty_indexer_poc.Headers.DaaIndex.{iter_lt, delete}
use local_rusty_indexer_poc.Processing.Skip.{get_entries_to_prune, remove_skip, remove_by_raw_key}
use local_rusty_indexer_poc.Processing.TxIds.{as_tx_ids}

-- RK_PRUNING_DEPTH of indexer-lib/src/lib.rs
abbrev pub rk_pruning_depth : ℕ
rk_pruning_depth = 1080000

-- the subtraction saturates
abbrev pub threshold : ℕ → ℕ
threshold virtual_daa = virtual_daa - rk_pruning_depth * 3

module _ (db : Fjall) where
  -- one position: its header and its index entry; each removal is a write of its own
  unfoldable pub prune_header : ℕ × Bytes → db.Tree × db.Tree → Result (db.Tree × db.Tree)
  prune_header (daa, hash) (headers, index) =
      ok (remove_header db headers hash, delete db index daa hash)

  unfoldable pub prune_block_headers : ℕ → db.Tree × db.Tree → Result (db.Tree × db.Tree)
  unfolding prune_header
  prune_block_headers virtual_daa (headers, index) =
      for_each_ok prune_header (iter_lt db index (threshold virtual_daa)) (headers, index)

  unfoldable pub remove_skips : db.Tree → List Bytes → db.Tree
  remove_skips t [] = t
  remove_skips t (tx_id ∷ tx_ids) = remove_skips (remove_skip db t tx_id) tx_ids

  -- one entry: the marks of its ids, and the entry; the log line reads a hash behind the score
  unfoldable pub prune_skips : Bytes × Bytes → db.Tree × db.Tree → Result (db.Tree × db.Tree)
  unfolding remove_skips
  prune_skips (raw_key, tx_ids) (skip_tx, by_block) =
      if length raw_key == 40
      then ok (remove_skips skip_tx (as_tx_ids tx_ids), remove_by_raw_key db by_block raw_key)
      else err panicked

  unfoldable pub prune_skip_transactions : ℕ → Bool → Keyspace db → Result (Keyspace db)
  unfolding prune_skips commit
  prune_skip_transactions virtual_daa lost ks = do
    (skip_tx, by_block) ←
        for_each_ok prune_skips
          (get_entries_to_prune db ks.skip_tx_by_block (to_be_bytes 8 (threshold virtual_daa)))
          (ks.skip_tx, ks.skip_tx_by_block)
    commit lost (record ks { skip_tx = skip_tx; skip_tx_by_block = by_block })
