-- ===== src/Keys.antt =====
-- indexer-lib/src/database/resolution_keys.rs, and the address payload of
-- indexer-lib/src/database/messages/handshakes.rs. Byte arrays are byte strings; their lengths
-- are stated where they matter. A `Like…` view is the bytes that it wraps; looking through it
-- (`deref`) is `…_from_bytes`, which panics on a length that is not the struct's.
pub mod Layout
pub mod Fields
pub mod RoundTrip
use local_rusty_indexer_poc.Prelude.{
  ℕ, ◌-◌, List, [], ◌∷◌, arith, length, replicate, ◌==◌, if◌then◌else◌, Result, ok, err, panicked,
}
use local_rusty_indexer_poc.Bytes.{Bytes}
use Layout.{slice, byte_at, join}

pub record AddressPayload : Type 0 where
  pub inverse_version : ℕ
  pub payload : Bytes

-- `Default`: EMPTY_VERSION and 33 zeros
abbrev pub default_address : AddressPayload
default_address = record { inverse_version = 0; payload = replicate 33 0 }

unfoldable pub address_bytes : AddressPayload → Bytes
address_bytes a = join ((a.inverse_version ∷ []) ∷ a.payload ∷ [])

pub record HandshakeKeyForResolution : Type 0 where
  pub block_time : Bytes
  pub block_hash : Bytes
  pub receiver : AddressPayload
  pub version : ℕ
  pub tx_id : Bytes
  pub attempt_count : ℕ

pub record ContextualMessageKeyForResolution : Type 0 where
  pub alias : Bytes
  pub block_time : Bytes
  pub block_hash : Bytes
  pub version : ℕ
  pub tx_id : Bytes
  pub attempt_count : ℕ

pub record PaymentKeyForResolution : Type 0 where
  pub block_time : Bytes
  pub block_hash : Bytes
  pub receiver : AddressPayload
  pub version : ℕ
  pub tx_id : Bytes
  pub attempt_count : ℕ

-- `bytemuck::bytes_of`
unfoldable pub handshake_bytes : HandshakeKeyForResolution → Bytes
handshake_bytes k = join (
    k.block_time
    ∷ k.block_hash
    ∷ (k.receiver.inverse_version ∷ [])
    ∷ k.receiver.payload
    ∷ (k.version ∷ [])
    ∷ k.tx_id
    ∷ (k.attempt_count ∷ [])
    ∷ [])

unfoldable pub contextual_bytes : ContextualMessageKeyForResolution → Bytes
contextual_bytes k = join (
    k.alias
    ∷ k.block_time
    ∷ k.block_hash
    ∷ (k.version ∷ [])
    ∷ k.tx_id
    ∷ (k.attempt_count ∷ [])
    ∷ [])

unfoldable pub payment_bytes : PaymentKeyForResolution → Bytes
payment_bytes k = join (
    k.block_time
    ∷ k.block_hash
    ∷ (k.receiver.inverse_version ∷ [])
    ∷ k.receiver.payload
    ∷ (k.version ∷ [])
    ∷ k.tx_id
    ∷ (k.attempt_count ∷ [])
    ∷ [])

-- the struct of a slice of the right length
abbrev pub handshake_of : Bytes → HandshakeKeyForResolution
handshake_of b = record {
  block_time = slice 0 8 b;
  block_hash = slice 8 32 b;
  receiver = record { inverse_version = byte_at 40 b; payload = slice 41 33 b };
  version = byte_at 74 b;
  tx_id = slice 75 32 b;
  attempt_count = byte_at 107 b;
}

abbrev pub contextual_of : Bytes → ContextualMessageKeyForResolution
contextual_of b = record {
  alias = slice 0 16 b;
  block_time = slice 16 8 b;
  block_hash = slice 24 32 b;
  version = byte_at 56 b;
  tx_id = slice 57 32 b;
  attempt_count = byte_at 89 b;
}

abbrev pub payment_of : Bytes → PaymentKeyForResolution
payment_of b = record {
  block_time = slice 0 8 b;
  block_hash = slice 8 32 b;
  receiver = record { inverse_version = byte_at 40 b; payload = slice 41 33 b };
  version = byte_at 74 b;
  tx_id = slice 75 32 b;
  attempt_count = byte_at 107 b;
}

-- `bytemuck::from_bytes`
unfoldable pub handshake_from_bytes : Bytes → Result HandshakeKeyForResolution
handshake_from_bytes b = if length b == 108 then ok (handshake_of b) else err panicked

unfoldable pub contextual_from_bytes : Bytes → Result ContextualMessageKeyForResolution
contextual_from_bytes b = if length b == 90 then ok (contextual_of b) else err panicked

unfoldable pub payment_from_bytes : Bytes → Result PaymentKeyForResolution
payment_from_bytes b = if length b == 108 then ok (payment_of b) else err panicked

-- `DaaResolutionLikeKey` and `SenderResolutionLikeKey`: a view with its kind
pub data DaaResolutionLikeKey : Type 0 where
  handshake_key contextual_message_key payment_key : Bytes → DaaResolutionLikeKey

pub data SenderResolutionLikeKey : Type 0 where
  handshake_key contextual_message_key payment_key : Bytes → SenderResolutionLikeKey

-- `DaaResolutionLikeKey::inner`
unfoldable pub inner : DaaResolutionLikeKey → Bytes
inner (DaaResolutionLikeKey.handshake_key hk) = hk
inner (DaaResolutionLikeKey.contextual_message_key cmk) = cmk
inner (DaaResolutionLikeKey.payment_key pk) = pk
