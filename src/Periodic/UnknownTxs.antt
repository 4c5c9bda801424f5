-- ===== src/Periodic/UnknownTxs.antt =====
-- `resolve_unknown_tx` of indexer-lib/src/periodic_processor.rs: transactions that a block accepted
-- before their own block was processed. `rtx` is the snapshot, and `wtx` the write transaction.
use local_rusty_indexer_poc.Prelude.{
  ℕ, Bool, true, false, none, some, List, [], ◌∷◌, ◌++◌, is_empty, ◌==◌, if◌then◌else◌, Result, ok,
  ◌>>=◌, ◌>>◌, for_each, for_each_ok,
}
use local_rusty_indexer_poc.Bytes.{Bytes}
use local_rusty_indexer_poc.Keys.{handshake_from_bytes, contextual_from_bytes, payment_from_bytes}
use local_rusty_indexer_poc.Keys.Layout.{slice, byte_at}
use local_rusty_indexer_poc.Processing.{
  as_u8, handshake_by_sender, contextual_message_by_sender, payment_by_sender,
}
use local_rusty_indexer_poc.Processing.Acceptance
use local_rusty_indexer_poc.Processing.Acceptance.{
  AcceptingBlockResolutionData, handshake_key, contextual_message_key, payment_key, no_data,
}
use local_rusty_indexer_poc.Processing.Skip
use local_rusty_indexer_poc.Processing.TxIds.{as_tx_ids}
use local_rusty_indexer_poc.Processing.UnknownTx
use local_rusty_indexer_poc.Processing.UnknownTx.{UnknownTxUpdateAction, update, delete}
use local_rusty_indexer_poc.Processing.UnknownDaa
use local_rusty_indexer_poc.Store.{Fjall}
use local_rusty_indexer_poc.Keyspace.{Keyspace, commit}
use local_rusty_indexer_poc.VirtualChain.Accept.{assert}

-- the variables that the loop over one block's ids changes
pub record Resolving (db : Fjall) : Type 0 where
  pub acceptance : db.Tree
  pub extended_daa_requests : Bytes
  pub remaining_tx_ids : List Bytes
  pub processed_any : Bool
  pub found_resolution : Bool

module _ (db : Fjall) where
  -- what the three arms with data do: the new tree, and the new entries
  abbrev pub take_entry : db.Tree → Bytes → Resolving db → Resolving db
  take_entry tree entries s = record s {
    acceptance = tree;
    extended_daa_requests = entries;
    found_resolution = true;
    processed_any = true;
  }

  -- the body of the loop over the entries of one transaction
  unfoldable pub resolve_entry :
      Bytes → Bytes → Bytes × AcceptingBlockResolutionData → Resolving db → Result (Resolving db)
  resolve_entry hash tx_id (key, handshake_key b) s = do
    assert (byte_at 72 key == as_u8 handshake_by_sender)
    hk ← handshake_from_bytes b
    ok (
        take_entry
          (Acceptance.insert_handshake_wtx db (Acceptance.remove_key db s.acceptance key)
            (slice 0 32 key) hk none (some hash))
          (UnknownDaa.push_handshake s.extended_daa_requests tx_id hk) s)
  resolve_entry hash tx_id (key, contextual_message_key b) s = do
    assert (byte_at 72 key == as_u8 contextual_message_by_sender)
    cmk ← contextual_from_bytes b
    ok (
        take_entry
          (Acceptance.insert_contextual_message_wtx db (Acceptance.remove_key db s.acceptance key)
            (slice 0 32 key) cmk none (some hash))
          (UnknownDaa.push_contextual_message s.extended_daa_requests tx_id cmk) s)
  resolve_entry hash tx_id (key, payment_key b) s = do
    assert (byte_at 72 key == as_u8 payment_by_sender)
    pmk ← payment_from_bytes b
    ok (
        take_entry
          (Acceptance.insert_payment_wtx db (Acceptance.remove_key db s.acceptance key)
            (slice 0 32 key) pmk none (some hash))
          (UnknownDaa.push_payment s.extended_daa_requests tx_id pmk) s)
  resolve_entry hash tx_id (key, no_data) s = ok s

  -- the body of the loop over the ids: a skipped one goes, one without data remains
  unfoldable pub resolve_tx : Keyspace db → Bytes → Bytes → Resolving db → Result (Resolving db)
  unfolding resolve_entry
  resolve_tx rtx hash tx_id s =
      if Skip.should_skip db rtx.skip_tx tx_id then ok (record s { processed_any = true }) else (do
        s' ←
            for_each_ok (resolve_entry hash tx_id)
              (Acceptance.get_by_tx_id db rtx.tx_id_to_acceptance tx_id)
              (record s { found_resolution = false })
        ok (
            if s'.found_resolution
            then s'
            else record s' { remaining_tx_ids = s'.remaining_tx_ids ++ tx_id ∷ [] }))

  -- the closure that is given to the update
  abbrev pub keep_remaining : List Bytes → List Bytes → UnknownTxUpdateAction
  keep_remaining remaining _ = if is_empty remaining then delete else update remaining

  -- the update of the block's unknown ids, once its loop is done
  unfoldable pub update_unknown : Bytes → List Bytes → Bool → db.Tree → Result db.Tree
  update_unknown hash remaining processed_any t =
      if processed_any
      then (do
        (_, t') ← UnknownTx.update_by_accepting_block_hash db t hash (keep_remaining remaining)
        ok t')
      else ok t

  -- the entries that now wait for the block's score
  unfoldable pub extend_waiting : Bytes → Bytes → db.Tree → Result db.Tree
  extend_waiting hash extended t =
      if UnknownDaa.entries_is_empty extended
      then ok t
      else UnknownDaa.extend_by_accepting_block_hash db t hash extended

  -- the body of the loop over the blocks
  unfoldable pub resolve_unknown_block :
      ℕ → Keyspace db → Bytes × Bytes → Keyspace db → Result (Keyspace db)
  unfolding resolve_tx update_unknown extend_waiting
  resolve_unknown_block attempts rtx (hash, like_tx_ids) wtx = do
    s ← for_each (resolve_tx rtx hash) (as_tx_ids like_tx_ids) (record {
      acceptance = wtx.tx_id_to_acceptance;
      extended_daa_requests = UnknownDaa.new_entries attempts;
      remaining_tx_ids = [];
      processed_any = false;
      found_resolution = false;
    })
    unknown ← update_unknown hash s.remaining_tx_ids s.processed_any wtx.unknown_tx
    waiting ← extend_waiting hash s.extended_daa_requests wtx.unknown_accepting_daa
    ok (record wtx {
      tx_id_to_acceptance = s.acceptance;
      unknown_tx = unknown;
      unknown_accepting_daa = waiting;
    })

  unfoldable pub resolve_unknown_tx : ℕ → Bool → Keyspace db → Result (Keyspace db)
  unfolding resolve_unknown_block commit
  resolve_unknown_tx attempts lost ks = do
    wtx ←
        for_each_ok (resolve_unknown_block attempts ks) (UnknownTx.get_all_unknown db ks.unknown_tx)
          ks
    commit lost wtx
