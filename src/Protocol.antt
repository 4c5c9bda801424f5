-- ===== src/Protocol.antt =====
-- protocol/src/operation.rs and protocol/src/operation/deserializer.rs: the sealed operations and
-- the parser of transaction payloads. A payload is a list of bytes; the borrowed slices of the
-- source are values.
pub mod RoundTrip
pub mod Examples
use Prim.Native.String.{String}
use Prim.Native.Char.{code}
use local_rusty_indexer_poc.Prelude.{
  ℕ, suc, Option, none, some, List, [], ◌∷◌, is_empty, take, drop, if◌then◌else◌,
}
use local_rusty_indexer_poc.Bytes.{Bytes, strip_prefix, position}

-- the bytes of an ASCII text
abbrev pub ascii : String → Bytes
ascii String.[] = []
ascii (String.◌∷◌ c s) = code c ∷ ascii s

abbrev pub protocol_prefix : Bytes
protocol_prefix = ascii "ciph_msg:"

abbrev pub version_1_part : Bytes
version_1_part = ascii "1:"

abbrev pub payment_tag : Bytes
payment_tag = ascii "payment:"

abbrev pub comm_tag : Bytes
comm_tag = ascii "comm:"

pub record SealedContextualMessageV1 : Type 0 where
  pub alias : Bytes
  pub sealed_hex : Bytes

pub record SealedPaymentV1 : Type 0 where
  pub sealed_hex : Bytes

pub record SealedMessageOrSealedHandshakeVNone : Type 0 where
  pub sealed_hex : Bytes

pub data SealedOperation : Type 0 where
  sealed_message_or_sealed_handshake_vnone : SealedMessageOrSealedHandshakeVNone → SealedOperation
  contextual_message_v1 : SealedContextualMessageV1 → SealedOperation
  payment_v1 : SealedPaymentV1 → SealedOperation

unfoldable pub op_type_name : SealedOperation → String
op_type_name (sealed_message_or_sealed_handshake_vnone _) = "HandshakeVNone"
op_type_name (contextual_message_v1 _) = "ContextualMessageV1"
op_type_name (payment_v1 _) = "PaymentV1"

-- the third arm: what follows `comm:`
unfoldable pub parse_comm : Bytes → Option SealedOperation
parse_comm remaining = elim (position b':' remaining) [
  | none ↦ none
  | some delimiter_idx ↦ some (
      contextual_message_v1 (record {
        alias = take delimiter_idx remaining;
        sealed_hex = drop (suc delimiter_idx) remaining;
      }))
]

-- the arms on what follows `1:`
unfoldable pub parse_version_1 : Bytes → Option SealedOperation
unfolding parse_comm
parse_version_1 body = elim (strip_prefix payment_tag body) [
  | some sealed_hex ↦ some (payment_v1 (record { sealed_hex = sealed_hex }))
  | none ↦ elim (strip_prefix comm_tag body) [ some remaining ↦ parse_comm remaining | none ↦ none ]
]

-- the arms of the `match` on the version part
unfoldable pub parse_content : Bytes → Option SealedOperation
unfolding parse_version_1
parse_content content = elim (strip_prefix version_1_part content) [
  | none ↦ some (sealed_message_or_sealed_handshake_vnone (record { sealed_hex = content }))
  | some body ↦ parse_version_1 body
]

unfoldable pub parse_sealed_operation : Bytes → Option SealedOperation
unfolding parse_content
parse_sealed_operation payload = elim (strip_prefix protocol_prefix payload) [
  | none ↦ none
  | some content ↦ if is_empty content then none else parse_content content
]

unfoldable pub from_payload : Bytes → Option SealedOperation
unfolding parse_sealed_operation
from_payload payload = parse_sealed_operation payload
