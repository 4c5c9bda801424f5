-- ===== src/Keys/RoundTrip.antt =====
-- The bytes of a resolution key and its fields determine one another.
use local_rusty_indexer_poc.Prelude.{◌≡◌, ap, length, ok, ◌==◌, ==_iff, checked, panicked}
use local_rusty_indexer_poc.Bytes.{Bytes}
use local_rusty_indexer_poc.Keys.{
  HandshakeKeyForResolution, handshake_bytes, handshake_from_bytes,
  ContextualMessageKeyForResolution, contextual_bytes, contextual_from_bytes,
  PaymentKeyForResolution, payment_bytes, payment_from_bytes,
}
use local_rusty_indexer_poc.Keys.Fields.{
  length-contextual_bytes, IsContextualKey, IsPaymentKey, contextual_of-bytes,
  contextual_bytes-contextual_of, payment_bytes-payment_of, length-handshake_bytes,
  handshake_bytes-handshake_of, IsHandshakeKey, payment_of-bytes, handshake_of-bytes,
  length-payment_bytes,
}

pub handshake_from_bytes-handshake_bytes :
    (h : HandshakeKeyForResolution)
    → IsHandshakeKey h
    → handshake_from_bytes (handshake_bytes h) ≡ ok h
unfolding handshake_from_bytes
handshake_from_bytes-handshake_bytes h v =
    rw (length-handshake_bytes h v) (ap ok (handshake_of-bytes h v))

pub contextual_from_bytes-contextual_bytes :
    (c : ContextualMessageKeyForResolution)
    → IsContextualKey c
    → contextual_from_bytes (contextual_bytes c) ≡ ok c
unfolding contextual_from_bytes
contextual_from_bytes-contextual_bytes c v =
    rw (length-contextual_bytes c v) (ap ok (contextual_of-bytes c v))

pub payment_from_bytes-payment_bytes :
    (p : PaymentKeyForResolution) → IsPaymentKey p → payment_from_bytes (payment_bytes p) ≡ ok p
unfolding payment_from_bytes
payment_from_bytes-payment_bytes p v = rw (length-payment_bytes p v) (ap ok (payment_of-bytes p v))

-- Reading the bytes of a resolution key, of any of the three kinds, gives back every field.
pub resolution_key_round_trip :
    (h : HandshakeKeyForResolution) (c : ContextualMessageKeyForResolution)
    (p : PaymentKeyForResolution)
    → IsHandshakeKey h
    → IsContextualKey c
    → IsPaymentKey p
    → (handshake_from_bytes (handshake_bytes h) ≡ ok h)
      × (contextual_from_bytes (contextual_bytes c) ≡ ok c)
      × (payment_from_bytes (payment_bytes p) ≡ ok p)
resolution_key_round_trip h c p vh vc vp = (
  handshake_from_bytes-handshake_bytes h vh,
  contextual_from_bytes-contextual_bytes c vc,
  payment_from_bytes-payment_bytes p vp,
)

-- What a view reads, written again, is the same bytes.
pub handshake_from_bytes_sound :
    (b : Bytes) (k : HandshakeKeyForResolution)
    → handshake_from_bytes b ≡ ok k
    → handshake_bytes k ≡ b
unfolding handshake_from_bytes
handshake_from_bytes_sound b k h =
    let (fits, same) = checked (length b == 108) panicked _ _ h in
    rw (← same) (handshake_bytes-handshake_of b ((==_iff _ _).0 fits))

pub contextual_from_bytes_sound :
    (b : Bytes) (k : ContextualMessageKeyForResolution)
    → contextual_from_bytes b ≡ ok k
    → contextual_bytes k ≡ b
unfolding contextual_from_bytes
contextual_from_bytes_sound b k h =
    let (fits, same) = checked (length b == 90) panicked _ _ h in
    rw (← same) (contextual_bytes-contextual_of b ((==_iff _ _).0 fits))

pub payment_from_bytes_sound :
    (b : Bytes) (k : PaymentKeyForResolution) → payment_from_bytes b ≡ ok k → payment_bytes k ≡ b
unfolding payment_from_bytes
payment_from_bytes_sound b k h =
    let (fits, same) = checked (length b == 108) panicked _ _ h in
    rw (← same) (payment_bytes-payment_of b ((==_iff _ _).0 fits))
