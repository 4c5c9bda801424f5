-- ===== src/Examples/Blocks.antt =====
-- Examples for the sets of recent keys and the block worker.
use local_rusty_indexer_poc.Prelude.{
  ℕ, ◌≡◌, refl, false, true, Option, none, some, [], ◌∷◌, arith, Result, ok, err, alias_too_long,
  replicate,
}
use local_rusty_indexer_poc.Bytes.{Bytes, ◌=ᵇ◌, strip_prefix, position}
use local_rusty_indexer_poc.FifoSet.{FifoSet, insert, contains, make_room}
use local_rusty_indexer_poc.FifoSet.Window.{IsValid, insert_all, contains-insert_all}
use local_rusty_indexer_poc.Store.Memory.{memory, put}
use local_rusty_indexer_poc.Store.{lookup}
use local_rusty_indexer_poc.Metadata
use local_rusty_indexer_poc.Messages.Contextual
use local_rusty_indexer_poc.Bytes.Endian.{to_be_bytes, to_le_bytes, lex_ltb}
use local_rusty_indexer_poc.Keyspace.{Keyspace, commit}
use local_rusty_indexer_poc.Protocol.{
  SealedOperation, SealedContextualMessageV1, contextual_message_v1, ascii, parse_sealed_operation,
}
use local_rusty_indexer_poc.BlockProcessor.Handlers.{
  Transaction, Block, handle_operation, handle_contextual_message, copy_alias, id_of,
}
use local_rusty_indexer_poc.BlockProcessor.{
  Processor, handle_block, handle_blocks, write_headers, handle_transactions, finish_block,
}
use local_rusty_indexer_poc.BlockProcessor.Effects.{Recorded, handle_operation-Recorded}
use local_rusty_indexer_poc.BlockProcessor.Halts.{handle_block-long_alias}
use local_rusty_indexer_poc.BlockProcessor.Once.{handle_block-once}
use local_rusty_indexer_poc.Examples.Base.{keyspace, ring, blank, chain, id_a, id_b, id_c}

abbrev pair : FifoSet ring
pair = record { set = record { items = id_a ∷ id_b ∷ []; room = 2 } }

abbrev pair_valid : IsValid ring pair
pair_valid = record { within = omega arith; room = omega arith }

contains-insert_all_example :
    contains ring (insert_all ring (insert ring pair id_c).0 (id_a ∷ [])) id_c ≡ true
unfolding contains ◌=ᵇ◌
contains-insert_all_example =
    contains-insert_all ring pair id_c (id_a ∷ []) pair_valid refl (omega arith)

abbrev processor : Processor memory ring
processor = record {
  processed_blocks = record { set = record { items = []; room = 2 } };
  processed_txs = record { set = record { items = []; room = 2 } };
  keyspace = keyspace;
  contextual_messages = 0;
  blocks_processed = 0;
}

-- a contextual message whose alias has 17 bytes
abbrev long_tx : Transaction
long_tx = record {
  verbose_id = some id_b;
  payload = ascii "ciph_msg:1:comm:aaaaaaaaaaaaaaaaa:abc";
  outputs = [];
}

abbrev block : Block
block = record {
  hash = id_a;
  daa_score = 10;
  blue_work = 100;
  timestamp = 5;
  transactions = long_tx ∷ [];
}

abbrev long_message : SealedContextualMessageV1
long_message = record { alias = replicate 17 97; sealed_hex = ascii "abc" }

handle_block-long_alias_example : handle_block memory ring chain block false processor ≡ (
  record processor { keyspace = write_headers memory ring chain block keyspace },
  some alias_too_long,
)
unfolding id_of contains parse_sealed_operation strip_prefix position
handle_block-long_alias_example =
    handle_block-long_alias memory ring chain block long_tx [] id_b long_message false processor
      refl refl refl refl refl (omega arith)

abbrev quiet : Block
quiet = record { hash = id_a; daa_score = 10; blue_work = 100; timestamp = 5; transactions = [] }

abbrev other : Block
other = record quiet { hash = id_b; daa_score = 11; blue_work = 110 }

abbrev after_one : Processor memory ring
after_one = (handle_block memory ring chain quiet false processor).0

abbrev after_two : Processor memory ring
after_two = (handle_blocks memory ring chain ((other, false) ∷ []) after_one).0

handle_block-once_example : handle_block memory ring chain quiet true after_two ≡ (after_two, none)
unfolding handle_block handle_blocks contains handle_transactions finish_block write_headers commit
    Metadata.set_latest_block_cursor Metadata.newer_value Metadata.value_bytes Metadata.value_ltb
    memory blank put lookup ◌=ᵇ◌ insert make_room to_be_bytes to_le_bytes lex_ltb
handle_block-once_example =
    handle_block-once memory ring chain quiet false true ((other, false) ∷ []) processor after_one
      after_two (record { within = omega arith; room = omega arith }) refl refl refl (omega arith)

abbrev hello : SealedOperation
hello = contextual_message_v1 (record { alias = ascii "bob"; sealed_hex = ascii "abc" })

abbrev ran : Result (Option Bytes × Keyspace memory × ℕ)
ran = handle_operation memory chain block long_tx id_b (some hello) keyspace

abbrev result : Option Bytes × Keyspace memory × ℕ
result = elim ran [ ok r ↦ r | err e ↦ (none, keyspace, 0) ]

handle_operation-Recorded_example :
    Recorded memory chain block long_tx id_b (some hello) keyspace result
unfolding handle_operation handle_contextual_message Contextual.insert_message copy_alias
handle_operation-Recorded_example =
    handle_operation-Recorded memory chain block long_tx id_b (some hello) keyspace result refl
