-- ===== src/Periodic/Completed.antt =====
-- The two answers that complete a message: the score of the block that accepted it, and its sender.
use local_rusty_indexer_poc.Prelude.{
  ℕ, ◌≡◌, refl, sym, ap, ◌∙◌, ◌<◌, ◌^◌, ◌&&◌, true, false, Option, none, some, List, [], ◌∷◌, ◌++◌,
  length, ◌==◌, if◌then◌else◌, ok, arith, Bool-cases, inl, inr, length-append,
}
use mathlib.Core.List.{append_assoc}
use local_rusty_indexer_poc.Bytes.{Bytes, ◌=ᵇ◌, =ᵇ_iff, strip_prefix-append}
use local_rusty_indexer_poc.Bytes.Endian.{to_be_bytes, length-to_be_bytes}
use local_rusty_indexer_poc.Keys.{
  AddressPayload, handshake_bytes, contextual_bytes, payment_bytes, SenderResolutionLikeKey,
  handshake_key, contextual_message_key, payment_key,
}
use local_rusty_indexer_poc.Keys.Layout.{byte_at, join, nth, slices-join_all, byte_at-eq-slice}
use local_rusty_indexer_poc.Keys.Fields.{
  length-handshake_bytes, length-contextual_bytes, length-payment_bytes,
}
use local_rusty_indexer_poc.Keyspace.{Keyspace}
use local_rusty_indexer_poc.Messages.Address.{TxScript}
use local_rusty_indexer_poc.Metadata.{Cursor}
use local_rusty_indexer_poc.Processing.{as_u8, message_partition}
use local_rusty_indexer_poc.Processing.Acceptance.{acceptance_key_bytes}
use local_rusty_indexer_poc.Processing.Entries.{
  Message, handshake, contextual, payment, IsMessage, push_all,
}
use local_rusty_indexer_poc.Processing.Pending.{
  pending_key_bytes, tx_prefix, pending_entry, like_key_of,
}
use local_rusty_indexer_poc.Processing.PendingScan.{IsLegal}
use local_rusty_indexer_poc.Processing.UnknownDaa.{new_entries}
use local_rusty_indexer_poc.Periodic.DaaResolution.{handle_daa_resolution}
use local_rusty_indexer_poc.Periodic.DaaResolution
use local_rusty_indexer_poc.Periodic.DaaResolved.{
  tx_id_of, partition_of, bytes_of, pending_after, accepted_after, pending_key_of_message,
  accepted_key, handle_daa_resolution-marks,
}
use local_rusty_indexer_poc.Periodic.SenderResolution.{
  Addresses, payload_of_address, handle_sender_resolution,
}
use local_rusty_indexer_poc.Periodic.SenderResolution
use local_rusty_indexer_poc.Periodic.Attributed.{Attributed, Attributed-from}
use local_rusty_indexer_poc.Periodic.SenderResolved.{emptied, handle_sender_resolution-Attributed}
use local_rusty_indexer_poc.Store.{Fjall, starts_with}
use local_rusty_indexer_poc.Store.Single.{prefix_single, prefix_free}

-- the message's key, as it is found pending
abbrev pub sender_key : Message → SenderResolutionLikeKey
sender_key (handshake tx_id key) = handshake_key (handshake_bytes key)
sender_key (contextual tx_id key) = contextual_message_key (contextual_bytes key)
sender_key (payment tx_id key) = payment_key (payment_bytes key)

sized_id : (m : Message) → IsMessage m → length (tx_id_of m) ≡ 32
sized_id (handshake tx_id key) h = h.0
sized_id (contextual tx_id key) h = h.0
sized_id (payment tx_id key) h = h.0

abbrev fields : ℕ → Message → List Bytes
fields daa m = to_be_bytes 8 daa ∷ tx_id_of m ∷ (as_u8 (partition_of m) ∷ []) ∷ []

starts_with-pending_key :
    (daa : ℕ) (m : Message)
    → starts_with (tx_prefix daa (tx_id_of m)) (pending_key_of_message daa m) ≡ true
unfolding starts_with pending_key_bytes
starts_with-pending_key daa m =
    rw
      (
        ← append_assoc (to_be_bytes 8 daa) (tx_id_of m) (as_u8 (partition_of m) ∷ []),
        starts_with,
        strip_prefix-append (tx_prefix daa (tx_id_of m)) (as_u8 (partition_of m) ∷ []),
      )
      refl

length-pending_key :
    (daa : ℕ) (m : Message) → IsMessage m → length (pending_key_of_message daa m) ≡ 41
unfolding pending_key_bytes
length-pending_key daa m h = omega (
  arith,
  length-append (to_be_bytes 8 daa) (tx_id_of m ++ as_u8 (partition_of m) ∷ []),
  length-append (tx_id_of m) (as_u8 (partition_of m) ∷ []),
  length-to_be_bytes 8 daa,
  sized_id m h,
)

byte_at-pending_key :
    (daa : ℕ) (m : Message)
    → IsMessage m
    → byte_at 40 (pending_key_of_message daa m) ≡ as_u8 (partition_of m)
unfolding pending_key_bytes
byte_at-pending_key daa m h =
    byte_at-eq-slice 40 (join (fields daa m))
    ∙ ap (λ fs. byte_at 0 (nth 2 fs))
        (slices-join_all (8 ∷ 32 ∷ 1 ∷ []) (fields daa m)
          (rw (length-to_be_bytes 8 daa, sized_id m h) refl))

sender_key-IsLegal : (m : Message) → IsMessage m → IsLegal (partition_of m, sender_key m)
sender_key-IsLegal (handshake tx_id key) h = length-handshake_bytes key h.1
sender_key-IsLegal (contextual tx_id key) h = length-contextual_bytes key h.1
sender_key-IsLegal (payment tx_id key) h = length-payment_bytes key h.1

pending_entry-message :
    (daa : ℕ) (m : Message)
    → IsMessage m
    → pending_entry (pending_key_of_message daa m, bytes_of m) ≡ ok (partition_of m, sender_key m)
unfolding pending_entry message_partition like_key_of
pending_entry-message daa (handshake tx_id key) h =
    rw (byte_at-pending_key daa (handshake tx_id key) h, length-handshake_bytes key h.1) refl
pending_entry-message daa (contextual tx_id key) h =
    rw (byte_at-pending_key daa (contextual tx_id key) h) refl
pending_entry-message daa (payment tx_id key) h =
    rw (byte_at-pending_key daa (payment tx_id key) h) refl

module _ (db : Fjall) (a : Addresses) (tx : TxScript) where
  open db use {get, prefix}

  -- the key that was marked and removed: the partition is as it was
  marked_removed :
      (daa : ℕ) (m : Message) (j : Bytes) (old : Option Bytes)
      → IsMessage m
      → (starts_with (tx_prefix daa (tx_id_of m)) j ≡ true → old ≡ none)
      → (if starts_with (tx_prefix daa (tx_id_of m)) j && length j == 41
          then none
          else pending_after daa (m ∷ []) j old)
        ≡ old
  marked_removed daa m j old legal free =
      let key = pending_key_of_message daa m in
      elim (Bool-cases (starts_with (tx_prefix daa (tx_id_of m)) j)) [
        | inl s ↦ elim (Bool-cases (length j == 41)) [
          | inl fits ↦ rw (s, fits, free s) refl
          | inr misfit ↦ elim (Bool-cases (key =ᵇ j)) [
            | inl same ↦
                absurd (
                  ground (arith, ap length ((=ᵇ_iff key j).0 same), length-pending_key daa m legal))
            | inr other ↦ rw (s, misfit, other) refl
          ]
        ]
        | inr s ↦ elim (Bool-cases (key =ᵇ j)) [
          | inl same ↦ absurd (
              ground (
                arith,
                s,
                ap (starts_with (tx_prefix daa (tx_id_of m))) ((=ᵇ_iff key j).0 same),
                starts_with-pending_key daa m,
              ))
          | inr other ↦ rw (s, other) refl
        ]
      ]

  starts_with-accepted_key :
      (daa : ℕ) (hash : Bytes) (m : Message)
      → starts_with (tx_id_of m) (accepted_key daa hash m) ≡ true
  unfolding starts_with acceptance_key_bytes
  starts_with-accepted_key daa hash m = rw (starts_with, strip_prefix-append) refl

  -- the entry that names the score and the block, once it is emptied
  accepted_emptied :
      (daa : ℕ) (hash : Bytes) (m : Message) (j : Bytes) (old : Option Bytes)
      → emptied db (tx_id_of m) j (accepted_after daa hash (m ∷ []) j old) ≡ (
          if accepted_key daa hash m =ᵇ j
          then some []
          else if starts_with (tx_id_of m) j
          then none
          else old)
  accepted_emptied daa hash m j old = elim (Bool-cases (accepted_key daa hash m =ᵇ j)) [
    | inl same ↦
        let s : starts_with (tx_id_of m) j ≡ true =
          ap (starts_with (tx_id_of m)) (sym ((=ᵇ_iff (accepted_key daa hash m) j).0 same))
          ∙ starts_with-accepted_key daa hash m in
        rw (same, s) refl
    | inr other ↦ elim (Bool-cases (starts_with (tx_id_of m) j)) [
      | inl s ↦ rw (other, s) refl
      | inr s ↦ rw (other, s) refl
    ]
  ]

  -- A message that alone waits for the score of the block that accepted it, and of whose
  -- transaction nothing is pending at that score yet. The resolver answers with the block's header
  -- (its score and blue work within their widths), then with an address that has a payload, and
  -- both commits meet no conflict. Both answers succeed, and the message is attributed to its
  -- sender. The block no longer waits, every key of the pending partition has the value that it had
  -- before, and of the transaction's acceptance entries there is one, which names the score and the
  -- block and is empty; those of other transactions are as they were.
  pub answers_complete :
      (header : Cursor) (attempts : ℕ) (m : Message) (address : a.Address) (sender : AddressPayload)
      (ks : Keyspace db)
      → header.blue_work < 256 ^ 24
      → header.daa_score < 256 ^ 8
      → IsMessage m
      → get ks.unknown_accepting_daa header.hash ≡ some (push_all (new_entries attempts) (m ∷ []))
      → prefix ks.pending_sender_resolution (tx_prefix header.daa_score (tx_id_of m)) ≡ []
      → payload_of_address a tx address ≡ ok sender
      → (ks1 : Keyspace db) × (ks2 : Keyspace db) × (handle_daa_resolution db false
            (DaaResolution.found header)
            ks
          ≡ ok ks1)
        × (handle_sender_resolution db a tx false
              (SenderResolution.found address
                (record { tx_id = tx_id_of m; daa_score = header.daa_score }))
              ks1
            ≡ ok ks2)
        × Attributed db sender (sender_key m) ks ks2
        × (get ks1.unknown_accepting_daa header.hash ≡ none)
        × ((j : Bytes) → get ks2.pending_sender_resolution j ≡ get ks.pending_sender_resolution j)
        × ((j : Bytes)
            → get ks2.tx_id_to_acceptance j ≡ (
                if accepted_key header.daa_score header.hash m =ᵇ j
                then some []
                else if starts_with (tx_id_of m) j
                then none
                else get ks.tx_id_to_acceptance j))
  answers_complete header attempts m address sender ks hb hd legal waits free payload =
      let daa = header.daa_score in
      let key = pending_key_of_message daa m in
      let (ks1, first, gone, _, pending, accepted, same) =
        handle_daa_resolution-marks db header attempts (m ∷ []) ks hb hd (legal, tt) waits in
      let starts = starts_with-pending_key daa m in
      let here : get ks1.pending_sender_resolution key ≡ some (bytes_of m) =
        pending key ∙ rw ((=ᵇ_iff key key).1 refl) refl in
      let one =
        prefix_single db ks1.pending_sender_resolution (tx_prefix daa (tx_id_of m)) key (bytes_of m)
          starts here
          (λ j s other.
            pending j
            ∙ rw other (
                prefix_free db ks.pending_sender_resolution (tx_prefix daa (tx_id_of m)) free j
                  s)) in
      let (ks2, second, settled, attributed) =
        handle_sender_resolution-Attributed db a tx address sender
          (record { tx_id = tx_id_of m; daa_score = daa }) ks1 key (bytes_of m) (partition_of m)
          (sender_key m) payload one (length-pending_key daa m legal)
          (pending_entry-message daa m legal) (sender_key-IsLegal m legal) in
      (
        ks1,
        ks2,
        first,
        second,
        Attributed-from db sender (sender_key m) ks1 ks ks2 (sym same) attributed,
        gone,
        (λ j.
            settled.pending j
            ∙ rw (pending j) (
                marked_removed daa m j (get ks.pending_sender_resolution j) legal (
                  prefix_free db ks.pending_sender_resolution (tx_prefix daa (tx_id_of m)) free
                    j))),
        (λ j.
            settled.acceptance j
            ∙ rw (accepted j)
                (accepted_emptied daa header.hash m j (get ks.tx_id_to_acceptance j))),
      )
