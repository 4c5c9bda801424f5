-- ===== src/Processing/AcceptingBlock.antt =====
-- `AcceptingBlockToTxIDPartition` of indexer-lib/src/database/processing/acceptance.rs: the ids of
-- the transactions that a chain block accepted.
use local_rusty_indexer_poc.Prelude.{Option, none, List, Result, ok, ◌>>=◌}
use local_rusty_indexer_poc.Bytes.{Bytes}
use local_rusty_indexer_poc.Store.{Fjall}
use local_rusty_indexer_poc.Keys.Layout.{join}
use local_rusty_indexer_poc.Processing.TxIds.{view}

module _ (db : Fjall) where
  open db use {Tree, get, insert, fetch_update}

  unfoldable pub insert_wtx : Tree → Bytes → List Bytes → Tree
  insert_wtx t accepted_by_block_hash tx_ids = insert t accepted_by_block_hash (join tx_ids)

  unfoldable pub remove_wtx : Tree → Bytes → Result (Option Bytes × Tree)
  remove_wtx t accepted_by_block_hash = do
    let (old, t') = fetch_update t accepted_by_block_hash (λ _. none)
    ids ← view old
    ok (ids, t')

  unfoldable pub get_ids : Tree → Bytes → Result (Option Bytes)
  get_ids t accepted_by_block_hash = view (get t accepted_by_block_hash)
