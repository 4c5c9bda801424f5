-- ===== src/VirtualChain/Accept.antt =====
-- `handle_accepted_block` of indexer-lib/src/virtual_chain_processor.rs
use local_rusty_indexer_poc.Prelude.{
  ℕ, Bool, true, false, not, Option, none, some, List, [], ◌∷◌, retain, ◌==◌, if◌then◌else◌, Result,
  ok, err, ◌>>=◌, for_each, for_each_ok, panicked, ◌++◌, ◌>>◌,
}
use local_rusty_indexer_poc.Bytes.{Bytes, ◌=ᵇ◌}
use local_rusty_indexer_poc.Keys.{handshake_from_bytes, contextual_from_bytes, payment_from_bytes}
use local_rusty_indexer_poc.Keys.Layout.{slice, byte_at}
use local_rusty_indexer_poc.Headers.Compact
use local_rusty_indexer_poc.Processing.{
  as_u8, handshake_by_sender, contextual_message_by_sender, payment_by_sender,
}
use local_rusty_indexer_poc.Processing.Acceptance as TxAcceptance
use local_rusty_indexer_poc.Processing.Acceptance.{
  AcceptingBlockResolutionData, handshake_key, contextual_message_key, payment_key, no_data,
}
use local_rusty_indexer_poc.Processing.AcceptingBlock
use local_rusty_indexer_poc.Processing.Skip
use local_rusty_indexer_poc.Processing.UnknownTx
use local_rusty_indexer_poc.Processing.UnknownDaa
use local_rusty_indexer_poc.Processing.Pending
use local_rusty_indexer_poc.Store.{Fjall}
use local_rusty_indexer_poc.Keyspace.{Keyspace}

-- `RpcAcceptedTransactionIds`
pub record AcceptedTransactionIds : Type 0 where
  pub accepting_block_hash : Bytes
  pub accepted_transaction_ids : List Bytes

-- the variables that the loops of `handle_accepted_block` change
pub record Accepting (db : Fjall) : Type 0 where
  pub wtx : Keyspace db
  pub entries : Bytes
  pub unknown_tx_ids : List Bytes
  pub is_required : Bool

-- `assert!(…)`
abbrev pub assert : Bool → Result (Unit {0})
assert true = ok tt
assert false = err panicked

module _ (db : Fjall) where
  -- the arms of the `match` on the resolution data
  unfoldable pub accept_data :
      Bytes
      → Option ℕ
      → Bytes
      → Bytes
      → AcceptingBlockResolutionData
      → Accepting db
      → Result (Accepting db)
  unfolding handshake_from_bytes contextual_from_bytes payment_from_bytes
  accept_data hash daa tx_id key (handshake_key b) s = do
    assert (byte_at 72 key == as_u8 handshake_by_sender)
    hk ← handshake_from_bytes b
    let acceptance =
        TxAcceptance.insert_handshake_wtx db
          (TxAcceptance.remove_key db s.wtx.tx_id_to_acceptance key) (slice 0 32 key) hk daa
          (some hash)
    let wtx' = record s.wtx { tx_id_to_acceptance = acceptance }
    elim daa [
      | some score ↦ ok (record s {
        wtx = record wtx' {
          pending_sender_resolution =
              Pending.mark_handshake_pending db wtx'.pending_sender_resolution score
                (slice 0 32 key) hk;
        };
      })
      | none ↦ ok (record s { wtx = wtx'; entries = UnknownDaa.push_handshake s.entries tx_id hk })
    ]
  accept_data hash daa tx_id key (contextual_message_key b) s = do
    assert (byte_at 72 key == as_u8 contextual_message_by_sender)
    cmk ← contextual_from_bytes b
    let acceptance =
        TxAcceptance.insert_contextual_message_wtx db
          (TxAcceptance.remove_key db s.wtx.tx_id_to_acceptance key) (slice 0 32 key) cmk daa
          (some hash)
    let wtx' = record s.wtx { tx_id_to_acceptance = acceptance }
    elim daa [
      | some score ↦ ok (record s {
        wtx = record wtx' {
          pending_sender_resolution =
              Pending.mark_contextual_message_pending db wtx'.pending_sender_resolution score
                (slice 0 32 key) cmk;
        };
      })
      | none ↦ ok (record s {
        wtx = wtx';
        entries = UnknownDaa.push_contextual_message s.entries (slice 0 32 key) cmk;
      })
    ]
  accept_data hash daa tx_id key (payment_key b) s = do
    assert (byte_at 72 key == as_u8 payment_by_sender)
    pmk ← payment_from_bytes b
    let acceptance =
        TxAcceptance.insert_payment_wtx db
          (TxAcceptance.remove_key db s.wtx.tx_id_to_acceptance key) (slice 0 32 key) pmk daa
          (some hash)
    let wtx' = record s.wtx { tx_id_to_acceptance = acceptance }
    elim daa [
      | some score ↦ ok (record s {
        wtx = record wtx' {
          pending_sender_resolution =
              Pending.mark_payment_pending db wtx'.pending_sender_resolution score (slice 0 32 key)
                pmk;
        };
      })
      | none ↦ ok (record s {
        wtx = wtx';
        entries = UnknownDaa.push_payment s.entries (slice 0 32 key) pmk;
      })
    ]
  accept_data hash daa tx_id key no_data s = ok s

  -- the body of the inner loop of `handle_accepted_block`
  unfoldable pub accept_entry :
      Bytes
      → Option ℕ
      → Bytes
      → Bytes × AcceptingBlockResolutionData
      → Accepting db
      → Result (Accepting db)
  unfolding accept_data
  accept_entry hash daa tx_id (key, resolution) s = do
    assert (tx_id =ᵇ slice 0 32 key)
    accept_data hash daa tx_id key resolution (record s { is_required = true })

  -- the body of the outer loop: an id with no entry at all is unknown
  unfoldable pub accept_tx :
      Keyspace db → Bytes → Option ℕ → Bytes → Accepting db → Result (Accepting db)
  unfolding accept_entry
  accept_tx rtx hash daa tx_id s = do
    s' ←
        for_each_ok (accept_entry hash daa tx_id)
          (TxAcceptance.get_by_tx_id db rtx.tx_id_to_acceptance tx_id)
          (record s { is_required = false })
    ok (
        if s'.is_required
        then s'
        else record s' { unknown_tx_ids = s'.unknown_tx_ids ++ tx_id ∷ [] })

  -- what follows the loops
  unfoldable pub finish_accepting :
      Bytes → Option ℕ → List Bytes → Accepting db → Result (Keyspace db)
  finish_accepting hash daa filtered s = do
    waiting ← elim daa [
      | none ↦ ok (UnknownDaa.insert_wtx db s.wtx.unknown_accepting_daa hash s.entries)
      | some _ ↦ do assert (UnknownDaa.entries_is_empty s.entries); ok s.wtx.unknown_accepting_daa
    ]
    ok (record s.wtx {
      unknown_accepting_daa = waiting;
      acceptance_to_tx_id = AcceptingBlock.insert_wtx db s.wtx.acceptance_to_tx_id hash filtered;
      unknown_tx = UnknownTx.insert_wtx db s.wtx.unknown_tx hash s.unknown_tx_ids;
    })

  -- the ids that are not marked to skip, in order
  unfoldable pub not_skipped : Keyspace db → List Bytes → List Bytes
  not_skipped rtx tx_ids = retain (λ tx_id. not (Skip.should_skip db rtx.skip_tx tx_id)) tx_ids

  unfoldable pub handle_accepted_block :
      ℕ → Keyspace db → AcceptedTransactionIds → Keyspace db → Result (Keyspace db)
  unfolding accept_tx finish_accepting not_skipped
  handle_accepted_block attempts rtx accepted wtx = do
    let hash = accepted.accepting_block_hash
    daa ← Compact.get_daa_score db rtx.block_compact_header hash
    let filtered = not_skipped rtx accepted.accepted_transaction_ids
    s ← for_each (accept_tx rtx hash daa) filtered (record {
      wtx = wtx;
      entries = UnknownDaa.new_entries attempts;
      unknown_tx_ids = [];
      is_required = false;
    })
    finish_accepting hash daa filtered s
