-- ===== src/VirtualChain/Unaccept.antt =====
-- `handle_chain_block_removal` of indexer-lib/src/virtual_chain_processor.rs. `rtx` is the snapshot
-- that `handle_vcc` opens first, and `wtx` the keyspace as its write transaction sees it.
use local_rusty_indexer_poc.Prelude.{
  ℕ, Option, none, some, List, replicate, Result, ok, ◌>>=◌, for_each, for_each_ok,
}
use local_rusty_indexer_poc.Bytes.{Bytes}
use local_rusty_indexer_poc.Keys.Layout.{byte_at}
use local_rusty_indexer_poc.Headers.Compact
use local_rusty_indexer_poc.Processing.Acceptance as TxAcceptance
use local_rusty_indexer_poc.Processing.Acceptance.{
  AcceptingBlockResolutionData, handshake_key, contextual_message_key, payment_key, no_data,
}
use local_rusty_indexer_poc.Processing.AcceptingBlock
use local_rusty_indexer_poc.Processing.TxIds
use local_rusty_indexer_poc.Processing.UnknownTx
use local_rusty_indexer_poc.Processing.UnknownDaa
use local_rusty_indexer_poc.Processing.Pending
use local_rusty_indexer_poc.Store.{Fjall}
use local_rusty_indexer_poc.Keyspace.{Keyspace}

module _ (db : Fjall) where
  -- the body of the inner loop of `handle_chain_block_removal`
  unfoldable pub unaccept :
      Bytes
      → Option ℕ
      → Bytes
      → Bytes × AcceptingBlockResolutionData
      → Keyspace db
      → Result (Keyspace db)
  unaccept removed_block_hash daa tx_id (key, value) wtx = do
    let acceptance =
        TxAcceptance.insert_wtx db (TxAcceptance.remove_key db wtx.tx_id_to_acceptance key)
          (record {
            tx_id = tx_id;
            accepted_at_daa = replicate 8 0;
            accepted_by_block_hash = replicate 32 0;
            partition_id = byte_at 72 key;
          })
          value
    (_, unknown_daa) ←
        UnknownDaa.remove_by_accepting_block_hash db wtx.unknown_accepting_daa removed_block_hash
    (_, unknown) ← UnknownTx.remove_by_accepting_block_hash db wtx.unknown_tx removed_block_hash
    let wtx' = record wtx {
      tx_id_to_acceptance = acceptance;
      unknown_accepting_daa = unknown_daa;
      unknown_tx = unknown;
    }
    elim daa [
      | none ↦ ok wtx'
      | some score ↦ do
        (_, pending) ← Pending.remove_pending db wtx.pending_sender_resolution score tx_id
        ok (record wtx' { pending_sender_resolution = pending })
    ]

  -- the loop over the ids that the removed block had accepted
  unfoldable pub unaccept_all :
      Keyspace db → Bytes → Option ℕ → List Bytes → Keyspace db → Result (Keyspace db)
  unfolding unaccept
  unaccept_all rtx removed_block_hash daa tx_ids wtx =
      for_each
        (λ tx_id.
          for_each_ok (unaccept removed_block_hash daa tx_id)
            (TxAcceptance.get_by_tx_id db rtx.tx_id_to_acceptance tx_id))
        tx_ids wtx

  unfoldable pub handle_chain_block_removal :
      Keyspace db → Bytes → Keyspace db → Result (Keyspace db)
  unfolding unaccept_all
  handle_chain_block_removal rtx removed_block_hash wtx = do
    (old, accepting) ← AcceptingBlock.remove_wtx db wtx.acceptance_to_tx_id removed_block_hash
    let wtx' = record wtx { acceptance_to_tx_id = accepting }
    elim old [
      | none ↦ ok wtx'
      | some ids ↦ do
        daa ← Compact.get_daa_score db rtx.block_compact_header removed_block_hash
        unaccept_all rtx removed_block_hash daa (TxIds.as_tx_ids ids) wtx'
    ]
