-- ===== src/Periodic/Asked.antt =====
-- What the two passes that ask the resolver do to the partitions and to the count of requests.
use local_rusty_indexer_poc.Prelude.{
  ℕ, ◌+◌, ◌%◌, ◌^◌, ◌≡◌, refl, ◌∙◌, ap, Option, none, some, List, [], ◌∷◌, map, All, length,
  length-append, ok, for_each, for_each_ok, arith,
}
use local_rusty_indexer_poc.Bytes.{Bytes}
use local_rusty_indexer_poc.Keys.{DaaResolutionLikeKey}
use local_rusty_indexer_poc.Keys.RoundTrip.{
  handshake_from_bytes-handshake_bytes, contextual_from_bytes-contextual_bytes,
  payment_from_bytes-payment_bytes,
}
use local_rusty_indexer_poc.Store.{Fjall, Entry}
use local_rusty_indexer_poc.Store.Update.{get-fetch_update_same, fetch_update-old}
use local_rusty_indexer_poc.Keyspace.{Keyspace}
use local_rusty_indexer_poc.Headers.Compact.{get_daa_score}
use local_rusty_indexer_poc.Processing.Pending.{
  get_all_pending_keys, decode_pending_key, mark_handshake_pending, mark_contextual_message_pending,
  mark_payment_pending, pending_key_of,
}
use local_rusty_indexer_poc.Processing.UnknownDaa.{
  PaddedResolutionEntry, get_resolution_key, new_entries, entries_view,
  remove_by_accepting_block_hash,
}
use local_rusty_indexer_poc.Processing.Entries.{
  Message, handshake, contextual, payment, IsMessage, push_all, entry, like_key,
  get_resolution_key-entry, push_all-as_entry_slice,
}
use local_rusty_indexer_poc.Periodic.Asking.{
  Channel, request, sender_request_of, mark_key, mark_pending, mark_entries, ask_block, ask_sender,
  unknown_sender,
}
use local_rusty_indexer_poc.Periodic.DaaResolved.{bytes_of, pending_key_of_message, pending_after}
use local_rusty_indexer_poc.Resolver.{SenderByTxIdAndDaa}

module _ (A : Type 0) (c : Channel A) where
  -- the count is that of the requests in this channel and `others`, as a number of 64 bits
  abbrev pub Counted : ℕ → c.Queue × ℕ → Type 0
  Counted others (q, in_progress) = in_progress ≡ (length (c.queued q) + others) % 2 ^ 64

  request-Counted :
      (others : ℕ) (a : A) (q : c.Queue) (in_progress : ℕ) (answer : Option c.Queue)
      → c.try_send q a ≡ answer
      → Counted others (q, in_progress)
      → Counted others (request A c a (q, in_progress))
  unfolding request
  request-Counted others a q in_progress none e h = rw (e, request) h
  request-Counted others a q in_progress (some q') e h =
      rw (e, request, c.try_send-queued q q' a e)
        (omega (arith, h, length-append (c.queued q) (a ∷ [])))

module _ (db : Fjall) (c : Channel SenderByTxIdAndDaa) where
  ask_keys-Counted :
      (others : ℕ) (entries : List Entry) (state : c.Queue × ℕ)
      → All (λ (e : Entry). length e.0 ≡ 41) entries
      → Counted SenderByTxIdAndDaa c others state
      → (state' : c.Queue × ℕ) × (for_each_ok
            (ask_sender db c)
            (map (λ (e : Entry). decode_pending_key e.0) entries)
            state
          ≡ ok state')
        × Counted SenderByTxIdAndDaa c others state'
  unfolding for_each_ok decode_pending_key ask_sender
  ask_keys-Counted others [] state sized h = (state, refl, h)
  ask_keys-Counted others ((k, v) ∷ entries) (q, n) sized h =
      let key = pending_key_of k in
      let i = sender_request_of db c key in
      rw (sized.0) (
        ask_keys-Counted others entries (request SenderByTxIdAndDaa c i (q, n)) sized.1
          (request-Counted SenderByTxIdAndDaa c others i q n (c.try_send q i) refl h))

  -- When every pending key has its length, the pass over the pending senders succeeds, and if the
  -- count of requests was that of the requests in the channel and some others before it, it is so
  -- after it, whichever requests the channel refuses.
  pub unknown_sender-Counted :
      (others : ℕ) (ks : Keyspace db) (state : c.Queue × ℕ)
      → All (λ (e : Entry). length e.0 ≡ 41) (db.iter ks.pending_sender_resolution)
      → Counted SenderByTxIdAndDaa c others state
      → (state' : c.Queue × ℕ) × (unknown_sender db c ks state ≡ ok state')
        × Counted SenderByTxIdAndDaa c others state'
  unfolding unknown_sender get_all_pending_keys
  unknown_sender-Counted others ks state sized h =
      ask_keys-Counted others (db.iter ks.pending_sender_resolution) state sized h

-- the key names the transaction it is stored for
abbrev pub IsOwn : Message → Type 0
IsOwn (handshake tx_id key) = key.tx_id ≡ tx_id
IsOwn (contextual tx_id key) = key.tx_id ≡ tx_id
IsOwn (payment tx_id key) = key.tx_id ≡ tx_id

module _ (db : Fjall) where
  open db use {Tree, get, get-insert}

  mark_pending-key :
      (daa : ℕ) (e : PaddedResolutionEntry) (key : DaaResolutionLikeKey) (pending : Tree)
      → get_resolution_key e ≡ ok key
      → mark_pending db daa e pending ≡ mark_key db daa key pending
  unfolding mark_pending
  mark_pending-key daa e key pending h = rw h refl

  mark_key-marks :
      (daa : ℕ) (m : Message) (pending : Tree)
      → IsMessage m
      → IsOwn m
      → mark_key db daa (like_key m) pending
        ≡ ok (db.insert pending (pending_key_of_message daa m) (bytes_of m))
  unfolding mark_key mark_handshake_pending mark_contextual_message_pending mark_payment_pending
  mark_key-marks daa (handshake tx_id key) pending h own =
      rw (handshake_from_bytes-handshake_bytes key h.1, own) refl
  mark_key-marks daa (contextual tx_id key) pending h own =
      rw (contextual_from_bytes-contextual_bytes key h.1, own) refl
  mark_key-marks daa (payment tx_id key) pending h own =
      rw (payment_from_bytes-payment_bytes key h.1, own) refl

  mark_messages :
      (daa : ℕ) (ms : List Message) (pending : Tree)
      → All IsMessage ms
      → All IsOwn ms
      → (pending' : Tree) × (for_each (mark_pending db daa) (map entry ms) pending ≡ ok pending')
        × ((j : Bytes) → get pending' j ≡ pending_after daa ms j (get pending j))
  unfolding for_each
  mark_messages daa [] pending h own = (pending, refl, λ j. refl)
  mark_messages daa (m ∷ ms) pending h own =
      let pending1 = db.insert pending (pending_key_of_message daa m) (bytes_of m) in
      let (pending2, later, marks) = mark_messages daa ms pending1 h.1 own.1 in
      let first =
        mark_pending-key daa (entry m) (like_key m) pending (get_resolution_key-entry m h.0)
        ∙ mark_key-marks daa m pending h.0 own.0 in
      (
        pending2,
        rw first later,
        λ j.
            marks j
            ∙ ap (pending_after daa ms j)
                (get-insert pending (pending_key_of_message daa m) (bytes_of m) j),
      )

module _ (db : Fjall) (c : Channel Bytes) where
  open db use {get}

  -- A block that waits with the entries of some messages, each key of which names its transaction,
  -- and whose score can be read by now: the pass succeeds, asks for nothing, the block no longer
  -- waits, and the pending partition is as the resolver's answer with that score would leave it.
  pub ask_block-marks :
      (rtx wtx : Keyspace db) (block : Bytes) (requests : c.Queue × ℕ) (score attempts : ℕ)
      (ms : List Message)
      → get_daa_score db rtx.block_compact_header block ≡ ok (some score)
      → All IsMessage ms
      → All IsOwn ms
      → get wtx.unknown_accepting_daa block ≡ some (push_all (new_entries attempts) ms)
      → (wtx' : Keyspace db) × (ask_block db c rtx block (wtx, requests) ≡ ok (wtx', requests))
        × (get wtx'.unknown_accepting_daa block ≡ none)
        × ((j : Bytes)
            → get wtx'.pending_sender_resolution j
              ≡ pending_after score ms j (get wtx.pending_sender_resolution j))
  unfolding ask_block mark_entries remove_by_accepting_block_hash entries_view
  ask_block-marks rtx wtx block requests score attempts ms known all own waits =
      let read = push_all-as_entry_slice attempts ms all in
      let (pending, ran, marks) = mark_messages db score ms wtx.pending_sender_resolution all own in
      rw
        (
          known,
          fetch_update-old db wtx.unknown_accepting_daa block (λ _. none),
          waits,
          read.4,
          read.0,
          ran,
        )
        (_, refl, get-fetch_update_same db wtx.unknown_accepting_daa block (λ _. none), marks)
