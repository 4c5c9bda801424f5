-- ===== src/Periodic/Asking.antt =====
-- `unknown_daa` and `unknown_sender` of indexer-lib/src/periodic_processor.rs: what is asked of the
-- resolver. A request channel is of a dependency.
use local_rusty_indexer_poc.Prelude.{
  ℕ, ◌≡◌, Bool, Option, none, some, List, [], ◌∷◌, ◌++◌, Result, ok, ◌>>=◌, for_each, for_each_ok,
}
use local_rusty_indexer_poc.Bytes.{Bytes}
use local_rusty_indexer_poc.Bytes.Endian.{from_be_bytes}
use local_rusty_indexer_poc.Keys.{
  handshake_from_bytes, contextual_from_bytes, payment_from_bytes, DaaResolutionLikeKey,
  handshake_key, contextual_message_key, payment_key,
}
use local_rusty_indexer_poc.Headers.Compact
use local_rusty_indexer_poc.Processing.Pending
use local_rusty_indexer_poc.Processing.Pending.{PendingResolutionKey}
use local_rusty_indexer_poc.Processing.UnknownDaa
use local_rusty_indexer_poc.Processing.UnknownDaa.{
  PaddedResolutionEntry, get_resolution_key, as_entry_slice,
}
use local_rusty_indexer_poc.Resolver.{SenderByTxIdAndDaa, one_more}
use local_rusty_indexer_poc.Store.{Fjall}
use local_rusty_indexer_poc.Keyspace.{Keyspace, commit}

-- a channel's `try_send`, which refuses when the channel is full or closed; `queued` is what waits
-- in it, oldest first
pub record Channel (A : Type 0) : Type 1 where
  pub Queue : Type 0
  pub try_send : Queue → A → Option Queue
  pub queued : Queue → List A
  pub try_send-queued :
      (q q' : Queue) (a : A) → try_send q a ≡ some q' → queued q' ≡ queued q ++ a ∷ []

module _ (A : Type 0) (c : Channel A) where
  -- a request that is taken is counted; one that is not is dropped
  unfoldable pub request : A → c.Queue × ℕ → c.Queue × ℕ
  request a (q, in_progress) = elim (c.try_send q a) [
    | some q' ↦ (q', one_more in_progress)
    | none ↦ (q, in_progress)
  ]

module _ (db : Fjall) where
  -- the arms of the `match` on the key of an entry whose block's score is known by now
  unfoldable pub mark_key : ℕ → DaaResolutionLikeKey → db.Tree → Result db.Tree
  mark_key daa (handshake_key b) pending = do
    hk ← handshake_from_bytes b
    ok (Pending.mark_handshake_pending db pending daa hk.tx_id hk)
  mark_key daa (contextual_message_key b) pending = do
    cmk ← contextual_from_bytes b
    ok (Pending.mark_contextual_message_pending db pending daa cmk.tx_id cmk)
  mark_key daa (payment_key b) pending = do
    pmk ← payment_from_bytes b
    ok (Pending.mark_payment_pending db pending daa pmk.tx_id pmk)

  unfoldable pub mark_pending : ℕ → PaddedResolutionEntry → db.Tree → Result db.Tree
  unfolding get_resolution_key mark_key
  mark_pending daa entry pending = do
    resolution ← get_resolution_key entry
    mark_key daa resolution pending

  unfoldable pub mark_entries : ℕ → Option Bytes → db.Tree → Result db.Tree
  unfolding mark_pending as_entry_slice
  mark_entries daa none pending = ok pending
  mark_entries daa (some bts) pending = do
    entries ← as_entry_slice bts
    for_each (mark_pending daa) entries pending

module _ (db : Fjall) (c : Channel Bytes) where
  -- the state of the loop: the partitions, and the channel with the count of requests
  abbrev pub Asked : Type 0
  Asked = Keyspace db × (c.Queue × ℕ)

  -- the body of the loop over the blocks with an unknown score
  unfoldable pub ask_block : Keyspace db → Bytes → Asked → Result Asked
  unfolding mark_entries request
  ask_block rtx block (wtx, requests) = do
    daa ← Compact.get_daa_score db rtx.block_compact_header block
    elim daa [
      | none ↦ ok (wtx, request Bytes c block requests)
      | some score ↦ do
        (entries, waiting) ←
            UnknownDaa.remove_by_accepting_block_hash db wtx.unknown_accepting_daa block
        pending ← mark_entries db score entries wtx.pending_sender_resolution
        ok (
          record wtx { unknown_accepting_daa = waiting; pending_sender_resolution = pending },
          requests,
        )
    ]

  unfoldable pub unknown_daa : Bool → Asked → Result Asked
  unfolding ask_block commit
  unknown_daa lost (ks, requests) = do
    (wtx, requests') ←
        for_each_ok (ask_block ks)
          (UnknownDaa.get_all_unknown_accepting_blocks db ks.unknown_accepting_daa) (ks, requests)
    ks' ← commit lost wtx
    ok (ks', requests')

module _ (db : Fjall) (c : Channel SenderByTxIdAndDaa) where
  abbrev pub sender_request_of : PendingResolutionKey → SenderByTxIdAndDaa
  sender_request_of key = record {
    tx_id = key.tx_id;
    daa_score = from_be_bytes key.accepting_daa_score;
  }

  -- the body of the loop over the pending keys
  unfoldable pub ask_sender : PendingResolutionKey → c.Queue × ℕ → Result (c.Queue × ℕ)
  unfolding request
  ask_sender key requests = ok (request SenderByTxIdAndDaa c (sender_request_of key) requests)

  unfoldable pub unknown_sender : Keyspace db → c.Queue × ℕ → Result (c.Queue × ℕ)
  unfolding ask_sender
  unknown_sender ks requests =
      for_each_ok ask_sender (Pending.get_all_pending_keys db ks.pending_sender_resolution) requests
