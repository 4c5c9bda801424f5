-- ===== src/Processing/UnknownTx.antt =====
-- indexer-lib/src/database/processing/unknown_transactions.rs
use local_rusty_indexer_poc.Prelude.{
  Bool, Option, none, some, List, map, length, is_empty, ◌==◌, if◌then◌else◌, Result, ok, err,
  ◌>>=◌, invalid_key_length,
}
use local_rusty_indexer_poc.Bytes.{Bytes}
use local_rusty_indexer_poc.Store.{Fjall, Entry}
use local_rusty_indexer_poc.Keys.Layout.{join}
use local_rusty_indexer_poc.Processing.TxIds
use local_rusty_indexer_poc.Processing.TxIds.{view, as_tx_ids}
use local_rusty_indexer_poc.Processing.Skip.{is_some}

pub data UnknownTxUpdateAction : Type 0 where
  update : List Bytes → UnknownTxUpdateAction
  delete do_nothing : UnknownTxUpdateAction

-- the new value that an action asks for; an empty update removes the entry
unfoldable pub act : Bytes → UnknownTxUpdateAction → Option Bytes
act old (update updated_tx_ids) =
    if is_empty updated_tx_ids then none else some (join updated_tx_ids)
act old delete = none
act old do_nothing = some old

-- the closure of `update_by_accepting_block_hash`
unfoldable pub updated : (List Bytes → UnknownTxUpdateAction) → Option Bytes → Option Bytes
unfolding act
updated update_fn none = none
updated update_fn (some value) = act value (update_fn (as_tx_ids value))

-- the closure of `get_all_unknown`
unfoldable pub decode_unknown : Entry → Result (Bytes × Bytes)
decode_unknown (key, value) =
    if length key == 32 then (do ids ← TxIds.new value; ok (key, ids)) else err invalid_key_length

module _ (db : Fjall) where
  open db use {Tree, get, insert, iter, fetch_update}

  unfoldable pub insert_wtx : Tree → Bytes → List Bytes → Tree
  insert_wtx t accepting_block_hash tx_ids = insert t accepting_block_hash (join tx_ids)

  unfoldable pub get_by_accepting_block_hash : Tree → Bytes → Result (Option Bytes)
  get_by_accepting_block_hash t accepting_block_hash = view (get t accepting_block_hash)

  unfoldable pub remove_by_accepting_block_hash : Tree → Bytes → Result (Option Bytes × Tree)
  remove_by_accepting_block_hash t accepting_block_hash = do
    let (old, t') = fetch_update t accepting_block_hash (λ _. none)
    ids ← view old
    ok (ids, t')

  -- the view inside the closure and that of the result panic on the same values
  unfoldable pub update_by_accepting_block_hash :
      Tree → Bytes → (List Bytes → UnknownTxUpdateAction) → Result (Option Bytes × Tree)
  unfolding updated
  update_by_accepting_block_hash t accepting_block_hash update_fn = do
    ids ← view (get t accepting_block_hash)
    let (_, t') = fetch_update t accepting_block_hash (updated update_fn)
    ok (ids, t')

  unfoldable pub has_unknown_for_block : Tree → Bytes → Bool
  has_unknown_for_block t accepting_block_hash = is_some (get t accepting_block_hash)

  unfoldable pub get_all_unknown : Tree → List (Result (Bytes × Bytes))
  unfolding decode_unknown
  get_all_unknown t = map decode_unknown (iter t)
