-- ===== src/Protocol/Examples.antt =====
-- Payloads of the tests in protocol/src/operation.rs, and an instance of the theorem.
use local_rusty_indexer_poc.Prelude.{◌≡◌, ◌↔◌, refl, none, some}
use local_rusty_indexer_poc.Protocol.{
  SealedOperation, payment_v1, contextual_message_v1, sealed_message_or_sealed_handshake_vnone,
  ascii, parse_sealed_operation,
}
use local_rusty_indexer_poc.Protocol.RoundTrip.{payload, IsExpressible, parse_sealed_operation_iff}
use local_rusty_indexer_poc.Bytes.{strip_prefix, position}

abbrev hello : SealedOperation
hello = contextual_message_v1 (record { alias = ascii "alias123"; sealed_hex = ascii "abc123" })

test_sealed_payment :
    parse_sealed_operation (ascii "ciph_msg:1:payment:abc123")
    ≡ some (payment_v1 (record { sealed_hex = ascii "abc123" }))
unfolding parse_sealed_operation strip_prefix
test_sealed_payment = refl

test_contextual_message :
    parse_sealed_operation (ascii "ciph_msg:1:comm:alias123:abc123") ≡ some hello
unfolding parse_sealed_operation strip_prefix position
test_contextual_message = refl

test_handshake :
    parse_sealed_operation (ascii "ciph_msg:abc123")
    ≡ some (sealed_message_or_sealed_handshake_vnone (record { sealed_hex = ascii "abc123" }))
unfolding parse_sealed_operation strip_prefix
test_handshake = refl

test_rejected :
    (parse_sealed_operation (ascii "ciph_msg:") ≡ none)
    × (parse_sealed_operation (ascii "ciph_msg:1:comm:noalias") ≡ none)
    × (parse_sealed_operation (ascii "ciph_msg:1:other:abc") ≡ none)
    × (parse_sealed_operation (ascii "invalid_payload") ≡ none)
unfolding parse_sealed_operation strip_prefix position
test_rejected = (refl, refl, refl, refl)

parse_sealed_operation_iff_example :
    (parse_sealed_operation (ascii "ciph_msg:1:comm:alias123:abc123") ≡ some hello)
    ↔ ((ascii "ciph_msg:1:comm:alias123:abc123" ≡ payload hello) × IsExpressible hello)
parse_sealed_operation_iff_example =
    parse_sealed_operation_iff (ascii "ciph_msg:1:comm:alias123:abc123") hello
