-- ===== src/Keys/Fields.antt =====
-- The byte layouts of the resolution keys: the fields, their widths, and the structs they make.
use local_rusty_indexer_poc.Prelude.{ℕ, ◌≡◌, refl, ap, ◌∙◌, List, [], ◌∷◌, map, arith, length}
use local_rusty_indexer_poc.Bytes.{Bytes}
use local_rusty_indexer_poc.Keys.Layout.{
  slices, byte_at, total, length-join, nth, byte_at-eq-slice, join-slices_all, slices-join_all,
  byte_at-slice,
}
use local_rusty_indexer_poc.Keys.{
  HandshakeKeyForResolution, handshake_bytes, handshake_of, ContextualMessageKeyForResolution,
  contextual_bytes, contextual_of, PaymentKeyForResolution, payment_bytes, payment_of,
}

abbrev handshake_widths : List ℕ
handshake_widths = 8 ∷ 32 ∷ 1 ∷ 33 ∷ 1 ∷ 32 ∷ 1 ∷ []

pub handshake_bytes-handshake_of :
    (b : Bytes) → length b ≡ 108 → handshake_bytes (handshake_of b) ≡ b
unfolding handshake_bytes
handshake_bytes-handshake_of b h =
    rw
      (
        byte_at-slice 40 b (omega arith),
        byte_at-slice 74 b (omega arith),
        byte_at-slice 107 b (omega arith),
      )
      at (join-slices_all handshake_widths b (omega arith))

abbrev contextual_widths : List ℕ
contextual_widths = 16 ∷ 8 ∷ 32 ∷ 1 ∷ 32 ∷ 1 ∷ []

pub contextual_bytes-contextual_of :
    (b : Bytes) → length b ≡ 90 → contextual_bytes (contextual_of b) ≡ b
unfolding contextual_bytes
contextual_bytes-contextual_of b h =
    rw (byte_at-slice 56 b (omega arith), byte_at-slice 89 b (omega arith)) at
      (join-slices_all contextual_widths b (omega arith))

pub payment_bytes-payment_of : (b : Bytes) → length b ≡ 108 → payment_bytes (payment_of b) ≡ b
unfolding payment_bytes
payment_bytes-payment_of b h =
    rw
      (
        byte_at-slice 40 b (omega arith),
        byte_at-slice 74 b (omega arith),
        byte_at-slice 107 b (omega arith),
      )
      at (join-slices_all handshake_widths b (omega arith))

-- the lengths that the array types of the structs give
pub record IsHandshakeKey (k : HandshakeKeyForResolution) : Type 0 where
  pub block_time : length k.block_time ≡ 8
  pub block_hash : length k.block_hash ≡ 32
  pub receiver : length k.receiver.payload ≡ 33
  pub tx_id : length k.tx_id ≡ 32

pub record IsContextualKey (k : ContextualMessageKeyForResolution) : Type 0 where
  pub alias : length k.alias ≡ 16
  pub block_time : length k.block_time ≡ 8
  pub block_hash : length k.block_hash ≡ 32
  pub tx_id : length k.tx_id ≡ 32

pub record IsPaymentKey (k : PaymentKeyForResolution) : Type 0 where
  pub block_time : length k.block_time ≡ 8
  pub block_hash : length k.block_hash ≡ 32
  pub receiver : length k.receiver.payload ≡ 33
  pub tx_id : length k.tx_id ≡ 32

abbrev handshake_fields : HandshakeKeyForResolution → List Bytes
handshake_fields k =
    k.block_time
    ∷ k.block_hash
    ∷ (k.receiver.inverse_version ∷ [])
    ∷ k.receiver.payload
    ∷ (k.version ∷ [])
    ∷ k.tx_id
    ∷ (k.attempt_count ∷ [])
    ∷ []

abbrev build_handshake : List Bytes → HandshakeKeyForResolution
build_handshake fs = record {
  block_time = nth 0 fs;
  block_hash = nth 1 fs;
  receiver = record { inverse_version = byte_at 0 (nth 2 fs); payload = nth 3 fs };
  version = byte_at 0 (nth 4 fs);
  tx_id = nth 5 fs;
  attempt_count = byte_at 0 (nth 6 fs);
}

handshake_of-build : (b : Bytes) → handshake_of b ≡ build_handshake (slices 0 handshake_widths b)
handshake_of-build b =
    rw (byte_at-eq-slice 40 b, byte_at-eq-slice 74 b, byte_at-eq-slice 107 b) refl

handshake_fields_widths :
    (k : HandshakeKeyForResolution)
    → IsHandshakeKey k
    → map length (handshake_fields k) ≡ handshake_widths
handshake_fields_widths k v = cc (v.block_time, v.block_hash, v.receiver, v.tx_id)

pub handshake_of-bytes :
    (k : HandshakeKeyForResolution) → IsHandshakeKey k → handshake_of (handshake_bytes k) ≡ k
unfolding handshake_bytes
handshake_of-bytes k v =
    handshake_of-build (handshake_bytes k)
    ∙ ap build_handshake
        (slices-join_all handshake_widths (handshake_fields k) (handshake_fields_widths k v))

abbrev contextual_fields : ContextualMessageKeyForResolution → List Bytes
contextual_fields k =
    k.alias ∷ k.block_time ∷ k.block_hash ∷ (k.version ∷ []) ∷ k.tx_id ∷ (k.attempt_count ∷ []) ∷ []

abbrev build_contextual : List Bytes → ContextualMessageKeyForResolution
build_contextual fs = record {
  alias = nth 0 fs;
  block_time = nth 1 fs;
  block_hash = nth 2 fs;
  version = byte_at 0 (nth 3 fs);
  tx_id = nth 4 fs;
  attempt_count = byte_at 0 (nth 5 fs);
}

contextual_of-build :
    (b : Bytes) → contextual_of b ≡ build_contextual (slices 0 contextual_widths b)
contextual_of-build b = rw (byte_at-eq-slice 56 b, byte_at-eq-slice 89 b) refl

contextual_fields_widths :
    (k : ContextualMessageKeyForResolution)
    → IsContextualKey k
    → map length (contextual_fields k) ≡ contextual_widths
contextual_fields_widths k v = cc (v.alias, v.block_time, v.block_hash, v.tx_id)

pub contextual_of-bytes :
    (k : ContextualMessageKeyForResolution)
    → IsContextualKey k
    → contextual_of (contextual_bytes k) ≡ k
unfolding contextual_bytes
contextual_of-bytes k v =
    contextual_of-build (contextual_bytes k)
    ∙ ap build_contextual
        (slices-join_all contextual_widths (contextual_fields k) (contextual_fields_widths k v))

abbrev payment_fields : PaymentKeyForResolution → List Bytes
payment_fields k =
    k.block_time
    ∷ k.block_hash
    ∷ (k.receiver.inverse_version ∷ [])
    ∷ k.receiver.payload
    ∷ (k.version ∷ [])
    ∷ k.tx_id
    ∷ (k.attempt_count ∷ [])
    ∷ []

abbrev build_payment : List Bytes → PaymentKeyForResolution
build_payment fs = record {
  block_time = nth 0 fs;
  block_hash = nth 1 fs;
  receiver = record { inverse_version = byte_at 0 (nth 2 fs); payload = nth 3 fs };
  version = byte_at 0 (nth 4 fs);
  tx_id = nth 5 fs;
  attempt_count = byte_at 0 (nth 6 fs);
}

payment_of-build : (b : Bytes) → payment_of b ≡ build_payment (slices 0 handshake_widths b)
payment_of-build b = rw (byte_at-eq-slice 40 b, byte_at-eq-slice 74 b, byte_at-eq-slice 107 b) refl

payment_fields_widths :
    (k : PaymentKeyForResolution)
    → IsPaymentKey k
    → map length (payment_fields k) ≡ handshake_widths
payment_fields_widths k v = cc (v.block_time, v.block_hash, v.receiver, v.tx_id)

pub payment_of-bytes :
    (k : PaymentKeyForResolution) → IsPaymentKey k → payment_of (payment_bytes k) ≡ k
unfolding payment_bytes
payment_of-bytes k v =
    payment_of-build (payment_bytes k)
    ∙ ap build_payment
        (slices-join_all handshake_widths (payment_fields k) (payment_fields_widths k v))

pub length-handshake_bytes :
    (k : HandshakeKeyForResolution) → IsHandshakeKey k → length (handshake_bytes k) ≡ 108
unfolding handshake_bytes
length-handshake_bytes k v =
    length-join (handshake_fields k) ∙ ap total (handshake_fields_widths k v)

pub length-contextual_bytes :
    (k : ContextualMessageKeyForResolution) → IsContextualKey k → length (contextual_bytes k) ≡ 90
unfolding contextual_bytes
length-contextual_bytes k v =
    length-join (contextual_fields k) ∙ ap total (contextual_fields_widths k v)

pub length-payment_bytes :
    (k : PaymentKeyForResolution) → IsPaymentKey k → length (payment_bytes k) ≡ 108
unfolding payment_bytes
length-payment_bytes k v = length-join (payment_fields k) ∙ ap total (payment_fields_widths k v)
