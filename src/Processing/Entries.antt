-- ===== src/Processing/Entries.antt =====
-- The entries that wait for a block's score: what is pushed is what is read.
use mathlib.Core.List.{append-nil, append_assoc}
use local_rusty_indexer_poc.Prelude.{
  ℕ, ◌-◌, ◌*◌, ◌/◌, ◌%◌, ◌≤◌, ◌≡◌, refl, sym, ap, ◌∙◌, List, [], ◌∷◌, ◌++◌, map, All, length,
  replicate, length-append, length-map, take-append, arith, ok, suc, zero,
}
use local_rusty_indexer_poc.Bytes.{Bytes}
use local_rusty_indexer_poc.Keys.{
  HandshakeKeyForResolution, ContextualMessageKeyForResolution, PaymentKeyForResolution,
  handshake_bytes, contextual_bytes, payment_bytes, DaaResolutionLikeKey, handshake_key,
  contextual_message_key, payment_key,
}
use local_rusty_indexer_poc.Keys.Layout.{
  join, slices-join_all, length-join, nth, byte_at, byte_at-eq-slice, chunks-join, HasWidth,
  length-join_width, slice, slices,
}
use local_rusty_indexer_poc.Keys.Fields.{
  IsHandshakeKey, IsContextualKey, IsPaymentKey, length-handshake_bytes, length-contextual_bytes,
  length-payment_bytes,
}
use local_rusty_indexer_poc.Processing.UnknownDaa.{
  PaddedResolutionEntry, entry_bytes, entry_of, entry_size, new_entries, as_entry_slice,
  padded_entry, padded, push_handshake, push_contextual_message, push_payment, get_resolution_key,
  handshake_like, handshake_by_sender, contextual_message_by_sender, payment_by_sender,
  entries_from, entries_attempt_count, entries_len,
}

-- a transaction's message, as it is pushed
pub data Message : Type 0 where
  handshake : Bytes → HandshakeKeyForResolution → Message
  contextual : Bytes → ContextualMessageKeyForResolution → Message
  payment : Bytes → PaymentKeyForResolution → Message

abbrev pub IsMessage : Message → Type 0
IsMessage (handshake tx_id key) = (length tx_id ≡ 32) × IsHandshakeKey key
IsMessage (contextual tx_id key) = (length tx_id ≡ 32) × IsContextualKey key
IsMessage (payment tx_id key) = (length tx_id ≡ 32) × IsPaymentKey key

abbrev pub push : Bytes → Message → Bytes
push bts (handshake tx_id key) = push_handshake bts tx_id key
push bts (contextual tx_id key) = push_contextual_message bts tx_id key
push bts (payment tx_id key) = push_payment bts tx_id key

abbrev pub push_all : Bytes → List Message → Bytes
push_all bts [] = bts
push_all bts (m ∷ ms) = push_all (push bts m) ms

-- the entry that is pushed, and the view of its key
abbrev pub entry : Message → PaddedResolutionEntry
entry (handshake tx_id key) = padded_entry tx_id handshake_by_sender (handshake_bytes key)
entry (contextual tx_id key) =
    padded_entry tx_id contextual_message_by_sender (contextual_bytes key)
entry (payment tx_id key) = padded_entry tx_id payment_by_sender (payment_bytes key)

abbrev pub like_key : Message → DaaResolutionLikeKey
like_key (handshake tx_id key) = handshake_key (handshake_bytes key)
like_key (contextual tx_id key) = contextual_message_key (contextual_bytes key)
like_key (payment tx_id key) = payment_key (payment_bytes key)

-- the lengths of an entry's arrays
abbrev IsEntry : PaddedResolutionEntry → Type 0
IsEntry e = (length e.tx_id ≡ 32) × (length e.resolution_key_data ≡ 108)

length-replicate {ℓ} : {A : Type ℓ} (n : ℕ) (a : A) → length (replicate n a) ≡ n
length-replicate zero a = refl
length-replicate (suc n) a = ap suc (length-replicate n a)

length-padded : (b : Bytes) → length b ≤ 108 → length (padded b) ≡ 108
length-padded b h = omega (
  arith,
  length-append b (replicate (108 - length b) 0),
  length-replicate {A = ℕ} (108 - length b) 0,
)

entry-IsEntry : (m : Message) → IsMessage m → IsEntry (entry m)
entry-IsEntry (handshake tx_id key) (h, k) =
    (h, length-padded (handshake_bytes key) (omega (arith, length-handshake_bytes key k)))
entry-IsEntry (contextual tx_id key) (h, k) =
    (h, length-padded (contextual_bytes key) (omega (arith, length-contextual_bytes key k)))
entry-IsEntry (payment tx_id key) (h, k) =
    (h, length-padded (payment_bytes key) (omega (arith, length-payment_bytes key k)))

abbrev entry_fields : PaddedResolutionEntry → List Bytes
entry_fields e = e.tx_id ∷ (e.partition_type ∷ []) ∷ e.resolution_key_data ∷ []

abbrev build_entry : List Bytes → PaddedResolutionEntry
build_entry fs = record {
  tx_id = nth 0 fs;
  partition_type = byte_at 0 (nth 1 fs);
  resolution_key_data = nth 2 fs;
}

entry_of-build : (b : Bytes) → entry_of b ≡ build_entry (slices 0 (32 ∷ 1 ∷ 108 ∷ []) b)
entry_of-build b = rw (byte_at-eq-slice 32 b) refl

entry_of-entry_bytes : (e : PaddedResolutionEntry) → IsEntry e → entry_of (entry_bytes e) ≡ e
unfolding entry_bytes
entry_of-entry_bytes e (h, k) =
    entry_of-build (entry_bytes e)
    ∙ ap build_entry (slices-join_all (32 ∷ 1 ∷ 108 ∷ []) (entry_fields e) (rw (h, k) refl))

length-entry_bytes : (e : PaddedResolutionEntry) → IsEntry e → length (entry_bytes e) ≡ entry_size
unfolding entry_bytes
length-entry_bytes e (h, k) = length-join (entry_fields e) ∙ omega (arith, h, k)

widths :
    (es : List PaddedResolutionEntry)
    → All IsEntry es
    → All (HasWidth entry_size) (map entry_bytes es)
widths [] h = tt
widths (e ∷ es) h = (length-entry_bytes e h.0, widths es h.1)

map-entry_of :
    (es : List PaddedResolutionEntry) → All IsEntry es → map entry_of (map entry_bytes es) ≡ es
map-entry_of [] h = refl
map-entry_of (e ∷ es) h = rw (entry_of-entry_bytes e h.0, map-entry_of es h.1) refl

-- a stored value: the count of attempts and the entries
abbrev stored : ℕ → List PaddedResolutionEntry → Bytes
stored n es = n ∷ join (map entry_bytes es)

length-stored :
    (es : List PaddedResolutionEntry)
    → All IsEntry es
    → length (join (map entry_bytes es)) ≡ entry_size * length es
length-stored es h =
    length-join_width entry_size (map entry_bytes es) (widths es h)
    ∙ ap (λ n. entry_size * n) (length-map entry_bytes es)

as_entry_slice-stored :
    (n : ℕ) (es : List PaddedResolutionEntry)
    → All IsEntry es
    → as_entry_slice (stored n es) ≡ ok es
unfolding as_entry_slice
as_entry_slice-stored n es h =
    let size = length-stored es h in
    let whole : length (join (map entry_bytes es)) % entry_size ≡ 0 = omega (arith, size) in
    let count : length (join (map entry_bytes es)) / entry_size ≡ length (map entry_bytes es) =
      omega (arith, size, length-map entry_bytes es) in
    rw (whole, count, chunks-join entry_size (map entry_bytes es) (widths es h))
      (ap ok (map-entry_of es h))

join-append : (xs ys : List Bytes) → join (xs ++ ys) ≡ join xs ++ join ys
join-append [] ys = refl
join-append (x ∷ xs) ys = ap (◌++◌ x) (join-append xs ys) ∙ sym (append_assoc x (join xs) (join ys))

map-append_one :
    (es : List PaddedResolutionEntry) (e : PaddedResolutionEntry)
    → map entry_bytes (es ++ e ∷ []) ≡ map entry_bytes es ++ entry_bytes e ∷ []
map-append_one [] e = refl
map-append_one (x ∷ es) e = ap (◌∷◌ (entry_bytes x)) (map-append_one es e)

stored-append :
    (n : ℕ) (es : List PaddedResolutionEntry) (e : PaddedResolutionEntry)
    → stored n es ++ entry_bytes e ≡ stored n (es ++ e ∷ [])
stored-append n es e =
    rw
      (
        map-append_one es e,
        join-append (map entry_bytes es) (entry_bytes e ∷ []),
        append-nil (entry_bytes e),
      )
      refl

push-stored :
    (n : ℕ) (es : List PaddedResolutionEntry) (m : Message)
    → push (stored n es) m ≡ stored n (es ++ entry m ∷ [])
unfolding push_handshake push_contextual_message push_payment
push-stored n es (handshake tx_id key) = stored-append n es (entry (handshake tx_id key))
push-stored n es (contextual tx_id key) = stored-append n es (entry (contextual tx_id key))
push-stored n es (payment tx_id key) = stored-append n es (entry (payment tx_id key))

push_all-stored :
    (n : ℕ) (es : List PaddedResolutionEntry) (ms : List Message)
    → push_all (stored n es) ms ≡ stored n (es ++ map entry ms)
push_all-stored n es [] = ap (stored n) (sym (append-nil es))
push_all-stored n es (m ∷ ms) = rw (push-stored n es m) (
    push_all-stored n (es ++ entry m ∷ []) ms
    ∙ ap (stored n) (append_assoc es (entry m ∷ []) (map entry ms)))

entries-IsEntry : (ms : List Message) → All IsMessage ms → All IsEntry (map entry ms)
entries-IsEntry [] h = tt
entries-IsEntry (m ∷ ms) h = (entry-IsEntry m h.0, entries-IsEntry ms h.1)

take-padded : (n : ℕ) (b : Bytes) → length b ≡ n → slice 0 n (padded b) ≡ b
take-padded n b h = rw (← h) (take-append b (replicate (108 - length b) 0))

-- the view of an entry's key is the key that was pushed
pub get_resolution_key-entry :
    (m : Message) → IsMessage m → get_resolution_key (entry m) ≡ ok (like_key m)
unfolding get_resolution_key handshake_like
get_resolution_key-entry (handshake tx_id key) (_, k) =
    let size = length-handshake_bytes key k in
    rw (take-padded 108 (handshake_bytes key) size, size) refl
get_resolution_key-entry (contextual tx_id key) (_, k) =
    rw (take-padded 90 (contextual_bytes key) (length-contextual_bytes key k)) refl
get_resolution_key-entry (payment tx_id key) (_, k) =
    rw (take-padded 108 (payment_bytes key) (length-payment_bytes key k)) refl

-- Messages pushed one after another into new entries are read back, in order, each with its id, its
-- kind and its key, and with the count of attempts: the vector's length is whole, and the view of
-- each entry's key is the bytes of the key that was pushed, without the padding.
pub push_all-as_entry_slice :
    (n : ℕ) (ms : List Message)
    → All IsMessage ms
    → (as_entry_slice (push_all (new_entries n) ms) ≡ ok (map entry ms))
      × (map get_resolution_key (map entry ms) ≡ map (λ m. ok (like_key m)) ms)
      × (entries_attempt_count (push_all (new_entries n) ms) ≡ n)
      × (entries_len (push_all (new_entries n) ms) ≡ length ms)
      × (entries_from (push_all (new_entries n) ms) ≡ ok (push_all (new_entries n) ms))
unfolding new_entries entries_attempt_count entries_len entries_from
push_all-as_entry_slice n ms h =
    let shape = push_all-stored n [] ms in
    let all = entries-IsEntry ms h in
    let size = length-stored (map entry ms) all in
    let whole : length (join (map entry_bytes (map entry ms))) % entry_size ≡ 0 =
      omega (arith, size) in
    rw shape (
      as_entry_slice-stored n (map entry ms) all,
      keys_read ms h,
      refl,
      ground (arith, size, length-map entry ms),
      ground (arith, whole),
    )
  where
    keys_read :
        (ms : List Message)
        → All IsMessage ms
        → map get_resolution_key (map entry ms) ≡ map (λ m. ok (like_key m)) ms
    keys_read [] h = refl
    keys_read (m ∷ ms) h = rw (get_resolution_key-entry m h.0, keys_read ms h.1) refl
