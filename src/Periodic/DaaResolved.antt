-- ===== src/Periodic/DaaResolved.antt =====
-- What the resolver's answer about a block's score leaves.
use local_rusty_indexer_poc.Prelude.{
  ℕ, ◌≡◌, refl, ◌∙◌, ap, ◌<◌, ◌^◌, false, Option, none, some, List, [], ◌∷◌, map, All,
  if◌then◌else◌, ok, for_each,
}
use local_rusty_indexer_poc.Bytes.{Bytes, ◌=ᵇ◌, =ᵇ_refl}
use local_rusty_indexer_poc.Keys.{
  DaaResolutionLikeKey, handshake_bytes, contextual_bytes, payment_bytes,
}
use local_rusty_indexer_poc.Keys.RoundTrip.{
  handshake_from_bytes-handshake_bytes, contextual_from_bytes-contextual_bytes,
  payment_from_bytes-payment_bytes,
}
use local_rusty_indexer_poc.Store.{Fjall, starts_with}
use local_rusty_indexer_poc.Store.Update.{get-fetch_update_same, fetch_update-old}
use local_rusty_indexer_poc.Keyspace.{Keyspace, commit}
use local_rusty_indexer_poc.Metadata.{Cursor}
use local_rusty_indexer_poc.Headers.Compact.{get_compact_header}
use local_rusty_indexer_poc.Headers.Lookup.{get_compact_header-insert_compact_header}
use local_rusty_indexer_poc.Processing.{
  PartitionId, handshake_by_sender, contextual_message_by_sender, payment_by_sender,
}
use local_rusty_indexer_poc.Processing.Acceptance.{
  acceptance_key_bytes, acceptance_key, insert_handshake_wtx, insert_contextual_message_wtx,
  insert_payment_wtx, remove_by_tx_id,
}
use local_rusty_indexer_poc.Processing.Removal.{remove_by_tx_id-exact}
use local_rusty_indexer_poc.Processing.Pending.{
  pending_key_bytes, pending_key, mark_handshake_pending, mark_contextual_message_pending,
  mark_payment_pending,
}
use local_rusty_indexer_poc.Processing.UnknownDaa.{
  PaddedResolutionEntry, get_resolution_key, new_entries, entries_view,
  remove_by_accepting_block_hash,
}
use local_rusty_indexer_poc.Processing.Entries.{
  Message, handshake, contextual, payment, IsMessage, push_all, entry, like_key,
  get_resolution_key-entry, push_all-as_entry_slice,
}
use local_rusty_indexer_poc.Periodic.DaaResolution.{
  found, resolve_daa, resolve_daa_entry, resolve_daa_entries, handle_daa_resolution,
}

abbrev pub tx_id_of : Message → Bytes
tx_id_of (handshake tx_id key) = tx_id
tx_id_of (contextual tx_id key) = tx_id
tx_id_of (payment tx_id key) = tx_id

abbrev pub partition_of : Message → PartitionId
partition_of (handshake tx_id key) = handshake_by_sender
partition_of (contextual tx_id key) = contextual_message_by_sender
partition_of (payment tx_id key) = payment_by_sender

abbrev pub bytes_of : Message → Bytes
bytes_of (handshake tx_id key) = handshake_bytes key
bytes_of (contextual tx_id key) = contextual_bytes key
bytes_of (payment tx_id key) = payment_bytes key

abbrev pub pending_key_of_message : ℕ → Message → Bytes
pending_key_of_message daa m = pending_key_bytes (pending_key daa (tx_id_of m) (partition_of m))

abbrev pub accepted_key : ℕ → Bytes → Message → Bytes
accepted_key daa hash m =
    acceptance_key_bytes (acceptance_key (tx_id_of m) (some daa) (some hash) (partition_of m))

-- the value under a key of the pending partition after some messages are marked, in order
abbrev pub pending_after : ℕ → List Message → Bytes → Option Bytes → Option Bytes
pending_after daa [] j old = old
pending_after daa (m ∷ ms) j old =
    pending_after daa ms j (if pending_key_of_message daa m =ᵇ j then some (bytes_of m) else old)

-- the value under a key of the acceptance partition after some messages are accepted: a message's
-- earlier entries go, and its new one holds its key
abbrev pub accepted_after : ℕ → Bytes → List Message → Bytes → Option Bytes → Option Bytes
accepted_after daa hash [] j old = old
accepted_after daa hash (m ∷ ms) j old = accepted_after daa hash ms j (
    if accepted_key daa hash m =ᵇ j
    then some (bytes_of m)
    else if starts_with (tx_id_of m) j
    then none
    else old)

module _ (db : Fjall) where
  open db use {Tree, get, get-insert}

  -- one message's entry resolved
  record Marks (daa : ℕ) (hash : Bytes) (ms : List Message) (before after : Tree × Tree)
      : Type 0 where
    accepted : (j : Bytes) → get after.0 j ≡ accepted_after daa hash ms j (get before.0 j)
    pending : (j : Bytes) → get after.1 j ≡ pending_after daa ms j (get before.1 j)

  inserted :
      (daa : ℕ) (hash : Bytes) (m : Message) (acceptance senders : Tree)
      → Marks daa hash
          (m ∷ [])
          (acceptance, senders)
          (
            db.insert
                (remove_by_tx_id db acceptance (tx_id_of m))
                (accepted_key daa hash m)
                (bytes_of m),
            db.insert senders (pending_key_of_message daa m) (bytes_of m),
          )
  inserted daa hash m acceptance senders = record {
    accepted = λ j.
        rw
          (
            get-insert (remove_by_tx_id db acceptance (tx_id_of m)) (accepted_key daa hash m)
                (bytes_of m) j,
            (remove_by_tx_id-exact db acceptance (tx_id_of m)).0 j,
          )
          refl;
    pending = λ j. get-insert senders (pending_key_of_message daa m) (bytes_of m) j;
  }

  resolve_daa-Marks :
      (daa : ℕ) (hash : Bytes) (m : Message) (trees : Tree × Tree)
      → IsMessage m
      → (trees' : Tree × Tree) × (resolve_daa db daa hash (tx_id_of m) (like_key m) trees
          ≡ ok trees')
        × Marks daa hash (m ∷ []) trees trees'
  unfolding resolve_daa insert_handshake_wtx insert_contextual_message_wtx insert_payment_wtx
      mark_handshake_pending mark_contextual_message_pending mark_payment_pending
  resolve_daa-Marks daa hash (handshake tx_id key) (acceptance, senders) h =
      rw (handshake_from_bytes-handshake_bytes key h.1)
        (_, refl, inserted daa hash (handshake tx_id key) acceptance senders)
  resolve_daa-Marks daa hash (contextual tx_id key) (acceptance, senders) h =
      rw (contextual_from_bytes-contextual_bytes key h.1)
        (_, refl, inserted daa hash (contextual tx_id key) acceptance senders)
  resolve_daa-Marks daa hash (payment tx_id key) (acceptance, senders) h =
      rw (payment_from_bytes-payment_bytes key h.1)
        (_, refl, inserted daa hash (payment tx_id key) acceptance senders)

  resolve_daa_entry-resolve_daa :
      (daa : ℕ) (hash : Bytes) (e : PaddedResolutionEntry) (key : DaaResolutionLikeKey)
      (trees : Tree × Tree)
      → get_resolution_key e ≡ ok key
      → resolve_daa_entry db daa hash e trees ≡ resolve_daa db daa hash e.tx_id key trees
  unfolding resolve_daa_entry
  resolve_daa_entry-resolve_daa daa hash e key trees h = rw h refl

  entry-tx_id : (m : Message) → (entry m).tx_id ≡ tx_id_of m
  entry-tx_id (handshake tx_id key) = refl
  entry-tx_id (contextual tx_id key) = refl
  entry-tx_id (payment tx_id key) = refl

  resolve_daa_entry-Marks :
      (daa : ℕ) (hash : Bytes) (m : Message) (trees : Tree × Tree)
      → IsMessage m
      → (trees' : Tree × Tree) × (resolve_daa_entry db daa hash (entry m) trees ≡ ok trees')
        × Marks daa hash (m ∷ []) trees trees'
  resolve_daa_entry-Marks daa hash m trees h =
      let (trees', ran, marks) = resolve_daa-Marks daa hash m trees h in
      (
        trees',
        resolve_daa_entry-resolve_daa daa hash (entry m) (like_key m) trees
              (get_resolution_key-entry m h)
            ∙ rw (entry-tx_id m) ran,
        marks,
      )

  resolve_messages-Marks :
      (daa : ℕ) (hash : Bytes) (ms : List Message) (trees : Tree × Tree)
      → All IsMessage ms
      → (trees' : Tree × Tree) × (for_each (resolve_daa_entry db daa hash) (map entry ms) trees
          ≡ ok trees')
        × Marks daa hash ms trees trees'
  unfolding for_each
  resolve_messages-Marks daa hash [] trees h =
      (trees, refl, record { accepted = λ j. refl; pending = λ j. refl })
  resolve_messages-Marks daa hash (m ∷ ms) trees h =
      let (trees1, first, one) = resolve_daa_entry-Marks daa hash m trees h.0 in
      let (trees2, later, rest) = resolve_messages-Marks daa hash ms trees1 h.1 in
      (
        trees2,
        rw first later,
        record {
          accepted = λ j. rest.accepted j ∙ ap (accepted_after daa hash ms j) (one.accepted j);
          pending = λ j. rest.pending j ∙ ap (pending_after daa ms j) (one.pending j);
        },
      )

  -- An answer with a header (its score and blue work within their widths) about a block that waits
  -- with the entries of some messages, when the commit meets no conflict: it succeeds, the block no
  -- longer waits, its header can be read, each message is pending under the header's score with its
  -- key, each message's acceptance entries are replaced by one that names the score and the block,
  -- and every other key of the two partitions keeps its value. Messages are taken in order. The
  -- contextual messages stay as they are.
  pub handle_daa_resolution-marks :
      (header : Cursor) (attempts : ℕ) (ms : List Message) (ks : Keyspace db)
      → header.blue_work < 256 ^ 24
      → header.daa_score < 256 ^ 8
      → All IsMessage ms
      → get ks.unknown_accepting_daa header.hash ≡ some (push_all (new_entries attempts) ms)
      → (ks' : Keyspace db) × (handle_daa_resolution db false (found header) ks ≡ ok ks')
        × (get ks'.unknown_accepting_daa header.hash ≡ none)
        × (get_compact_header db ks'.block_compact_header header.hash
            ≡ ok (some (record { blue_work = header.blue_work; daa_score = header.daa_score })))
        × ((j : Bytes)
            → get ks'.pending_sender_resolution j
              ≡ pending_after header.daa_score ms j (get ks.pending_sender_resolution j))
        × ((j : Bytes)
            → get ks'.tx_id_to_acceptance j
              ≡ accepted_after header.daa_score header.hash ms j (get ks.tx_id_to_acceptance j))
        × (ks'.contextual_message_by_sender ≡ ks.contextual_message_by_sender)
  unfolding handle_daa_resolution resolve_daa_entries remove_by_accepting_block_hash entries_view
      commit
  handle_daa_resolution-marks header attempts ms ks hb hd all waits =
      let read = push_all-as_entry_slice attempts ms all in
      let (trees, ran, marks) =
        resolve_messages-Marks header.daa_score header.hash ms
          (ks.tx_id_to_acceptance, ks.pending_sender_resolution) all in
      rw
        (
          fetch_update-old db ks.unknown_accepting_daa header.hash (λ _. none),
          waits,
          read.4,
          read.0,
          ran,
        )
        (
          _,
          refl,
          get-fetch_update_same db ks.unknown_accepting_daa header.hash (λ _. none),
          get_compact_header-insert_compact_header db ks.block_compact_header header.hash
                header.blue_work header.daa_score header.hash hb hd
              ∙ rw (=ᵇ_refl header.hash) refl,
          marks.pending,
          marks.accepted,
          refl,
        )
