-- ===== src/Examples/Resolution.antt =====
-- Examples for the resolution of scores, senders and unknown transactions.
use local_rusty_indexer_poc.Prelude.{
  ◌≡◌, refl, false, none, some, List, [], ◌∷◌, ◌++◌, map, replicate, length, ok, arith, inr,
  if◌then◌else◌,
}
use local_rusty_indexer_poc.Bytes.{Bytes, ◌=ᵇ◌, strip_prefix}
use local_rusty_indexer_poc.Bytes.Endian.{to_be_bytes, lex_ltb}
use local_rusty_indexer_poc.Keys.{
  AddressPayload, default_address, PaymentKeyForResolution, payment_bytes, payment_key,
}
use local_rusty_indexer_poc.Store.{lookup, starts_with}
use local_rusty_indexer_poc.Store.Memory.{memory, put}
use local_rusty_indexer_poc.Keyspace.{Keyspace}
use local_rusty_indexer_poc.Headers.Compact.{get_compact_header}
use local_rusty_indexer_poc.Messages.Address.{ScriptPublicKey, try_from, payload_of}
use local_rusty_indexer_poc.Processing.{payment_by_sender}
use local_rusty_indexer_poc.Processing.Acceptance.{insert_payment_wtx}
use local_rusty_indexer_poc.Processing.Pending.{
  mark_payment_pending, pending_key_bytes, pending_key, pending_entry,
}
use local_rusty_indexer_poc.Processing.UnknownDaa.{
  new_entries, as_entry_slice, get_resolution_key, entries_attempt_count, entries_len, entries_from,
}
use local_rusty_indexer_poc.Processing.Entries.{
  Message, payment, push_all, entry, like_key, push_all-as_entry_slice,
}
use local_rusty_indexer_poc.Resolver.{SenderByTxIdAndDaa}
use local_rusty_indexer_poc.Periodic.SenderResolution.{
  Addresses, payload_of_address, handle_sender_resolution,
}
use local_rusty_indexer_poc.Periodic.SenderResolution as Sender
use local_rusty_indexer_poc.Periodic.Attributed.{Attributed}
use local_rusty_indexer_poc.Periodic.SenderResolved.{
  Settled, SameMessages, emptied, handle_sender_resolution-Attributed,
  handle_sender_resolution-Settled, handle_sender_resolution_late,
}
use local_rusty_indexer_poc.Periodic.DaaResolution.{handle_daa_resolution}
use local_rusty_indexer_poc.Periodic.DaaResolution as Daa
use local_rusty_indexer_poc.Periodic.DaaResolved.{
  accepted_key, pending_after, accepted_after, handle_daa_resolution-marks,
}
use local_rusty_indexer_poc.Periodic.Completed.{answers_complete}
use local_rusty_indexer_poc.Examples.Base.{blank, keyspace, chain, id_a, id_b, cursor_b}

-- a payment, as a message that waits for its score
abbrev pub paid : PaymentKeyForResolution
paid = record {
  block_time = replicate 8 0;
  block_hash = id_b;
  receiver = default_address;
  version = 1;
  tx_id = id_a;
  attempt_count = 10;
}

abbrev pub messages : List Message
messages = payment id_a paid ∷ []

push_all-as_entry_slice_example :
    (as_entry_slice (push_all (new_entries 5) messages) ≡ ok (map entry messages))
    × (map get_resolution_key (map entry messages) ≡ map (λ m. ok (like_key m)) messages)
    × (entries_attempt_count (push_all (new_entries 5) messages) ≡ 5)
    × (entries_len (push_all (new_entries 5) messages) ≡ length messages)
    × (entries_from (push_all (new_entries 5) messages) ≡ ok (push_all (new_entries 5) messages))
push_all-as_entry_slice_example =
    push_all-as_entry_slice 5 messages
      ((refl, record { block_time = refl; block_hash = refl; receiver = refl; tx_id = refl }), tt)

-- addresses that are their scripts
abbrev addresses : Addresses
addresses = record { Address = ScriptPublicKey; pay_to_address_script = λ s. s }

abbrev address : ScriptPublicKey
address = record { version = 0; script = replicate 34 7 }

abbrev sender : AddressPayload
sender = record { inverse_version = 255; payload = replicate 32 7 ++ 0 ∷ [] }

abbrev asked : SenderByTxIdAndDaa
asked = record { tx_id = id_a; daa_score = 11 }

-- the payment is accepted, and its sender pending
abbrev pending : Keyspace memory
pending = record keyspace {
  tx_id_to_acceptance = insert_payment_wtx memory blank id_a paid (some 11) (some id_b);
  pending_sender_resolution = mark_payment_pending memory blank 11 id_a paid;
}

abbrev key : Bytes
key = pending_key_bytes (pending_key 11 id_a payment_by_sender)

handle_sender_resolution-Attributed_example :
    (ks' : Keyspace memory) × (handle_sender_resolution memory addresses chain.scripts false
        (Sender.found address asked)
        pending
      ≡ ok ks')
    × Settled memory asked pending ks'
    × Attributed memory sender (payment_key (payment_bytes paid)) pending ks'
unfolding memory blank put lookup ◌=ᵇ◌ lex_ltb starts_with strip_prefix mark_payment_pending
    pending_key_bytes payment_bytes payload_of_address try_from payload_of pending_entry to_be_bytes
handle_sender_resolution-Attributed_example =
    handle_sender_resolution-Attributed memory addresses chain.scripts address sender asked pending
      key (payment_bytes paid) payment_by_sender (payment_key (payment_bytes paid)) refl refl refl
      refl refl

handle_sender_resolution-Settled_example :
    (ks' : Keyspace memory) × (handle_sender_resolution memory addresses chain.scripts false
        (Sender.found address asked)
        pending
      ≡ ok ks')
    × Settled memory asked pending ks'
unfolding memory blank put lookup ◌=ᵇ◌ lex_ltb starts_with strip_prefix mark_payment_pending
    pending_key_bytes payment_bytes payload_of_address try_from payload_of to_be_bytes
handle_sender_resolution-Settled_example =
    handle_sender_resolution-Settled memory addresses chain.scripts address sender asked pending
      refl ((refl, inr (inr (refl, refl))), tt)

-- a reorganisation has removed what was pending
abbrev reorganised : Keyspace memory
reorganised = record pending { pending_sender_resolution = blank }

handle_sender_resolution_late_example :
    (ks' : Keyspace memory) × (handle_sender_resolution memory addresses chain.scripts false
        (Sender.found address asked)
        reorganised
      ≡ ok ks')
    × SameMessages memory addresses chain.scripts reorganised ks'
    × ((j : Bytes)
        → memory.get ks'.tx_id_to_acceptance j
          ≡ emptied memory id_a j (memory.get reorganised.tx_id_to_acceptance j))
unfolding memory blank payload_of_address try_from payload_of
handle_sender_resolution_late_example =
    handle_sender_resolution_late memory addresses chain.scripts address sender asked reorganised
      refl refl

-- the block waits for its score
abbrev pub waiting : Keyspace memory
waiting = record keyspace {
  unknown_accepting_daa = memory.insert blank id_b (push_all (new_entries 5) messages);
}

handle_daa_resolution-marks_example :
    (ks' : Keyspace memory) × (handle_daa_resolution memory false (Daa.found cursor_b) waiting
      ≡ ok ks')
    × (memory.get ks'.unknown_accepting_daa id_b ≡ none)
    × (get_compact_header memory ks'.block_compact_header id_b
        ≡ ok (some (record { blue_work = 110; daa_score = 11 })))
    × ((j : Bytes)
        → memory.get ks'.pending_sender_resolution j
          ≡ pending_after 11 messages j (memory.get waiting.pending_sender_resolution j))
    × ((j : Bytes)
        → memory.get ks'.tx_id_to_acceptance j
          ≡ accepted_after 11 id_b messages j (memory.get waiting.tx_id_to_acceptance j))
    × (ks'.contextual_message_by_sender ≡ blank)
unfolding memory blank put lookup ◌=ᵇ◌
handle_daa_resolution-marks_example =
    handle_daa_resolution-marks memory cursor_b 5 messages waiting (omega arith) (omega arith)
      ((refl, record { block_time = refl; block_hash = refl; receiver = refl; tx_id = refl }), tt)
      refl

answers_complete_example :
    (ks1 : Keyspace memory) × (ks2 : Keyspace memory) × (handle_daa_resolution memory false
        (Daa.found cursor_b)
        waiting
      ≡ ok ks1)
    × (handle_sender_resolution memory addresses chain.scripts false
          (Sender.found address asked)
          ks1
        ≡ ok ks2)
    × Attributed memory sender (payment_key (payment_bytes paid)) waiting ks2
    × (memory.get ks1.unknown_accepting_daa id_b ≡ none)
    × ((j : Bytes)
        → memory.get ks2.pending_sender_resolution j
          ≡ memory.get waiting.pending_sender_resolution j)
    × ((j : Bytes)
        → memory.get ks2.tx_id_to_acceptance j ≡ (
            if accepted_key 11 id_b (payment id_a paid) =ᵇ j
            then some []
            else if starts_with id_a j
            then none
            else memory.get waiting.tx_id_to_acceptance j))
unfolding memory blank put lookup ◌=ᵇ◌ payload_of_address try_from payload_of
answers_complete_example =
    answers_complete memory addresses chain.scripts cursor_b 5 (payment id_a paid) address sender
      waiting (omega arith) (omega arith)
      (refl, record { block_time = refl; block_hash = refl; receiver = refl; tx_id = refl }) refl
      refl refl
