-- ===== src/Examples/Base.antt =====
-- Data that the examples share: a ring set held as a list, ids, and cursors.
use local_rusty_indexer_poc.Prelude.{
  ℕ, ◌-◌, ◌%◌, ◌^◌, ltb, none, some, if◌then◌else◌, refl, List, [], ◌∷◌, ◌++◌, length, replicate,
  arith, err, invalid_script,
}
use local_rusty_indexer_poc.Bytes.{Bytes}
use local_rusty_indexer_poc.FifoSet.{mem, tail, RingSet, IsExact}
use local_rusty_indexer_poc.Store.Memory.{memory, empty}
use local_rusty_indexer_poc.Keyspace.{Keyspace}
use local_rusty_indexer_poc.Metadata.{Cursor}
use local_rusty_indexer_poc.Progress.{Uint192}
use local_rusty_indexer_poc.Messages.Address.{pub_key}
use local_rusty_indexer_poc.BlockProcessor.Handlers.{Chain}

pub record Slots : Type 0 where
  pub items : List Bytes
  pub room : ℕ

-- a ring set that allocates exactly what is asked for, and doubles when it is full
abbrev pub ring : RingSet
ring = record {
  Ring = Slots;
  with_capacity = λ n. record { items = []; room = n };
  ring_contains = λ s k. mem k s.items;
  len = λ s. length s.items;
  capacity = λ s. s.room;
  pop_front = λ s. record { items = tail s.items; room = s.room };
  ring_insert = λ s k. record { items = s.items ++ k ∷ []; room = s.room };
  to_list = λ s. s.items;
  contains_lem = λ s k. refl;
  len_lem = λ s. refl;
  to_list-with_capacity = λ n. refl;
  to_list-pop_front = λ s. refl;
  to_list-insert = λ s k h. refl;
  le-capacity = λ n. omega arith;
  capacity-pop_front = λ s. omega arith;
  capacity-insert = λ s k h. omega arith;
}

abbrev pub exact : IsExact ring
exact = record { exact-pop_front = λ s. refl; exact-insert = λ s k h. refl }

-- subtraction that panics below 0, and the low 128 bits
abbrev pub work : Uint192
work = record { sub = λ a b. if ltb a b then none else some (a - b); as_u128 = λ n. n % 2 ^ 128 }

abbrev pub id_a : Bytes
id_a = replicate 32 1

abbrev pub id_b : Bytes
id_b = replicate 32 2

abbrev pub id_c : Bytes
id_c = replicate 32 3

abbrev pub cursor_a : Cursor
cursor_a = record { daa_score = 10; blue_work = 100; hash = id_a }

abbrev pub cursor_b : Cursor
cursor_b = record { daa_score = 11; blue_work = 110; hash = id_b }

-- scripts that all count as public keys, and ids that nobody computes
abbrev pub chain : Chain
chain = record {
  scripts = record {
    from_script = λ s. pub_key;
    class_version = λ c. 0;
    pub_key_version = 0;
    pub_key_ecdsa_version = 1;
    script_hash_version = 8;
  };
  compute_id = λ tx. err invalid_script;
}

-- a partition with nothing in it
unfoldable pub blank : memory.Tree
unfolding memory
blank = empty

abbrev pub keyspace : Keyspace memory
keyspace = record {
  metadata = blank;
  handshake_by_sender = blank;
  handshake_by_receiver = blank;
  tx_id_to_handshake = blank;
  contextual_message_by_sender = blank;
  payment_by_sender = blank;
  payment_by_receiver = blank;
  tx_id_to_payment = blank;
  tx_id_to_acceptance = blank;
  acceptance_to_tx_id = blank;
  skip_tx = blank;
  skip_tx_by_block = blank;
  block_compact_header = blank;
  daa_index = blank;
  unknown_tx = blank;
  unknown_accepting_daa = blank;
  pending_sender_resolution = blank;
  block_gaps = blank;
}
