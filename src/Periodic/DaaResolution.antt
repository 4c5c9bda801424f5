-- ===== src/Periodic/DaaResolution.antt =====
-- `handle_daa_resolution` of indexer-lib/src/periodic_processor.rs: the resolver's answer about the
-- score of an accepting block.
use local_rusty_indexer_poc.Prelude.{ℕ, Bool, none, some, Result, ok, ◌>>=◌, for_each}
use local_rusty_indexer_poc.Bytes.{Bytes}
use local_rusty_indexer_poc.Keys.{
  handshake_from_bytes, contextual_from_bytes, payment_from_bytes, DaaResolutionLikeKey,
  handshake_key, contextual_message_key, payment_key,
}
use local_rusty_indexer_poc.Metadata.{Cursor}
use local_rusty_indexer_poc.Headers.Compact
use local_rusty_indexer_poc.Headers.DaaIndex
use local_rusty_indexer_poc.Processing.Acceptance
use local_rusty_indexer_poc.Processing.Pending
use local_rusty_indexer_poc.Processing.UnknownDaa
use local_rusty_indexer_poc.Processing.UnknownDaa.{
  PaddedResolutionEntry, get_resolution_key, as_entry_slice,
}
use local_rusty_indexer_poc.Store.{Fjall}
use local_rusty_indexer_poc.Keyspace.{Keyspace, commit}

-- `Result<Box<RpcHeader>, RpcHash>`; of the header, the three fields that are read
pub data DaaAnswer : Type 0 where
  found : Cursor → DaaAnswer
  not_found : Bytes → DaaAnswer

module _ (db : Fjall) where
  -- the arms of the `match` on the key of an entry, over the two partitions that they write
  unfoldable pub resolve_daa :
      ℕ → Bytes → Bytes → DaaResolutionLikeKey → db.Tree × db.Tree → Result (db.Tree × db.Tree)
  resolve_daa daa hash tx_id (handshake_key b) (acceptance, pending) = do
    let cleared = Acceptance.remove_by_tx_id db acceptance tx_id
    hk ← handshake_from_bytes b
    ok (
      Acceptance.insert_handshake_wtx db cleared tx_id hk (some daa) (some hash),
      Pending.mark_handshake_pending db pending daa tx_id hk,
    )
  resolve_daa daa hash tx_id (contextual_message_key b) (acceptance, pending) = do
    let cleared = Acceptance.remove_by_tx_id db acceptance tx_id
    cmk ← contextual_from_bytes b
    ok (
      Acceptance.insert_contextual_message_wtx db cleared tx_id cmk (some daa) (some hash),
      Pending.mark_contextual_message_pending db pending daa tx_id cmk,
    )
  resolve_daa daa hash tx_id (payment_key b) (acceptance, pending) = do
    let cleared = Acceptance.remove_by_tx_id db acceptance tx_id
    pmk ← payment_from_bytes b
    ok (
      Acceptance.insert_payment_wtx db cleared tx_id pmk (some daa) (some hash),
      Pending.mark_payment_pending db pending daa tx_id pmk,
    )

  -- the body of the loop over the block's entries
  unfoldable pub resolve_daa_entry :
      ℕ → Bytes → PaddedResolutionEntry → db.Tree × db.Tree → Result (db.Tree × db.Tree)
  unfolding get_resolution_key resolve_daa
  resolve_daa_entry daa hash entry trees = do
    resolution ← get_resolution_key entry
    resolve_daa daa hash entry.tx_id resolution trees

  -- The header and the index are written at once, outside of the write transaction.
  unfoldable pub resolve_daa_entries : Bool → Cursor → Bytes → Keyspace db → Result (Keyspace db)
  unfolding resolve_daa_entry as_entry_slice commit
  resolve_daa_entries lost header pending wtx = do
    entries ← as_entry_slice pending
    (acceptance, senders) ←
        for_each (resolve_daa_entry header.daa_score header.hash) entries
          (wtx.tx_id_to_acceptance, wtx.pending_sender_resolution)
    commit lost (record wtx {
      tx_id_to_acceptance = acceptance;
      pending_sender_resolution = senders;
      block_compact_header =
          Compact.insert_compact_header db wtx.block_compact_header header.hash header.blue_work
            header.daa_score;
      daa_index = DaaIndex.insert_index db wtx.daa_index header.daa_score header.hash;
    })

  -- With nothing pending the transaction is dropped without a commit.
  unfoldable pub handle_daa_resolution : Bool → DaaAnswer → Keyspace db → Result (Keyspace db)
  unfolding commit resolve_daa_entries
  handle_daa_resolution lost (not_found hash) ks = do
    (_, waiting) ←
        UnknownDaa.decrement_attempt_counts_by_block_hash db ks.unknown_accepting_daa hash
    commit lost (record ks { unknown_accepting_daa = waiting })
  handle_daa_resolution lost (found header) ks = do
    (pending, waiting) ←
        UnknownDaa.remove_by_accepting_block_hash db ks.unknown_accepting_daa header.hash
    elim pending [
      | none ↦ ok ks
      | some bts ↦
          resolve_daa_entries lost header bts (record ks { unknown_accepting_daa = waiting })
    ]
