-- ===== src/Examples/Storage.antt =====
-- Examples for the partitions.
use local_rusty_indexer_poc.Prelude.{
  ℕ, ◌-◌, ◌≡◌, refl, true, none, some, List, [], ◌∷◌, ◌++◌, map, replicate, retain, ltb, arith,
  if◌then◌else◌, ok, err, is_empty, invalid_key_length,
}
use local_rusty_indexer_poc.Bytes.{Bytes, ◌=ᵇ◌}
use local_rusty_indexer_poc.Bytes.Endian.{to_be_bytes, lex_ltb}
use local_rusty_indexer_poc.Store.{lookup, starts_with}
use local_rusty_indexer_poc.Store.Memory.{memory, put}
use local_rusty_indexer_poc.Keys.{
  handshake_bytes, handshake_from_bytes, contextual_bytes, contextual_from_bytes, payment_bytes,
  payment_from_bytes, HandshakeKeyForResolution, ContextualMessageKeyForResolution,
  PaymentKeyForResolution, default_address,
}
use local_rusty_indexer_poc.Keys.Layout.{join}
use local_rusty_indexer_poc.Keys.RoundTrip.{resolution_key_round_trip}
use local_rusty_indexer_poc.Metadata.{
  key_bytes, latest_block_cursor, set_latest_block_cursor, get_latest_block_cursor,
}
use local_rusty_indexer_poc.Metadata.Latest.{advance, stored, set_latest_block_cursor-advance}
use local_rusty_indexer_poc.Headers.Compact.{insert_compact_header, get_compact_header}
use local_rusty_indexer_poc.Headers.DaaIndex.{iter_lt, latest_daa, insert_index, make_key}
use local_rusty_indexer_poc.Headers.Lookup.{
  get_compact_header-insert_compact_header, iter_lt-exact, latest_daa_fails,
}
use local_rusty_indexer_poc.Processing.Acceptance.{remove_by_tx_id, get_by_tx_id}
use local_rusty_indexer_poc.Processing.Removal.{remove_by_tx_id-exact}
use local_rusty_indexer_poc.Processing.Skip.{get_entries_to_prune, by_block_key, add_skip_for_block}
use local_rusty_indexer_poc.Processing.Pruning.{SkipBlock, get_entries_to_prune-exact}
use local_rusty_indexer_poc.Processing.UnknownDaa.{decrement_attempt_counts_by_block_hash}
use local_rusty_indexer_poc.Processing.Retries.{fail_times, fail_times-kept, fail_times-removed}
use local_rusty_indexer_poc.Examples.Base.{blank, id_a, id_b, cursor_a, cursor_b}

-- a partition of unknown scores where one block waits with three attempts and no entries
abbrev waiting_block : memory.Tree
waiting_block = memory.insert blank id_a (3 ∷ [])

fail_times-kept_example :
    (t' : memory.Tree) × (fail_times memory 2 id_a waiting_block ≡ ok t')
    × ((j : Bytes)
        → memory.get t' j ≡ (if id_a =ᵇ j then some ((3 - 2) ∷ []) else memory.get waiting_block j))
unfolding memory blank put lookup ◌=ᵇ◌
fail_times-kept_example = fail_times-kept memory 2 3 waiting_block id_a [] refl (omega arith) refl

fail_times-removed_example :
    (t' : memory.Tree) × (t'' : memory.Tree) × (fail_times memory 2 id_a waiting_block ≡ ok t')
    × (decrement_attempt_counts_by_block_hash memory t' id_a ≡ ok (true, t''))
    × (memory.get t'' id_a ≡ none)
unfolding memory blank put lookup ◌=ᵇ◌
fail_times-removed_example = fail_times-removed memory 2 waiting_block id_a [] refl refl

-- a metadata partition that holds a cursor
abbrev held : memory.Tree
held = memory.insert blank (key_bytes latest_block_cursor) (stored cursor_a)

set_latest_block_cursor-advance_example :
    (t' : memory.Tree) × (set_latest_block_cursor memory held cursor_b ≡ ok t')
    × (memory.get t' (key_bytes latest_block_cursor)
        ≡ some (stored (advance (some cursor_a) cursor_b)))
    × (get_latest_block_cursor memory t' ≡ ok (some (advance (some cursor_a) cursor_b)))
    × ((j : Bytes)
        → memory.get t' j ≡ (
            if key_bytes latest_block_cursor =ᵇ j
            then some (stored (advance (some cursor_a) cursor_b))
            else memory.get held j))
unfolding memory blank put lookup ◌=ᵇ◌
set_latest_block_cursor-advance_example =
    set_latest_block_cursor-advance memory held (some cursor_a) cursor_b
      (record { daa_score = omega arith; blue_work = omega arith; hash = refl })
      (record { daa_score = omega arith; blue_work = omega arith; hash = refl }) refl

get_compact_header-insert_compact_header_example :
    get_compact_header memory (insert_compact_header memory blank id_a 100 10) id_a ≡ (
      if id_a =ᵇ id_a
      then ok (some (record { blue_work = 100; daa_score = 10 }))
      else get_compact_header memory blank id_a)
unfolding memory blank
get_compact_header-insert_compact_header_example =
    get_compact_header-insert_compact_header memory blank id_a 100 10 id_a (omega arith)
      (omega arith)

abbrev positions : List (ℕ × Bytes)
positions = (10, id_a) ∷ (11, id_b) ∷ []

abbrev index : memory.Tree
index = insert_index memory (insert_index memory blank 11 id_b) 10 id_a

iter_lt-exact_example :
    iter_lt memory index 11 ≡ map ok (retain (λ (p : ℕ × Bytes). ltb p.0 11) positions)
unfolding memory blank put lookup ◌=ᵇ◌ lex_ltb insert_index make_key to_be_bytes
iter_lt-exact_example =
    iter_lt-exact memory index 11 positions (omega arith)
      ((omega arith, refl), ((omega arith, refl), tt)) refl

latest_daa_fails_example :
    latest_daa memory index ≡ (if is_empty positions then ok none else err invalid_key_length)
unfolding memory blank put lookup ◌=ᵇ◌ lex_ltb insert_index make_key to_be_bytes
latest_daa_fails_example =
    latest_daa_fails memory index positions ((omega arith, refl), ((omega arith, refl), tt)) refl

-- two transactions with an entry each
abbrev accepted_keys : memory.Tree
accepted_keys = memory.insert (memory.insert blank (id_a ++ 5 ∷ []) []) (id_b ++ 5 ∷ []) []

remove_by_tx_id-exact_example :
    ((j : Bytes)
      → memory.get (remove_by_tx_id memory accepted_keys id_a) j
        ≡ (if starts_with id_a j then none else memory.get accepted_keys j))
    × (get_by_tx_id memory (remove_by_tx_id memory accepted_keys id_a) id_a ≡ [])
remove_by_tx_id-exact_example = remove_by_tx_id-exact memory accepted_keys id_a

abbrev skip_blocks : List SkipBlock
skip_blocks =
    record { daa_score = 10; block_hash = id_a; tx_ids = id_b ∷ [] }
    ∷ record { daa_score = 11; block_hash = id_b; tx_ids = id_a ∷ [] }
    ∷ []

abbrev skip_entries : memory.Tree
skip_entries =
    add_skip_for_block memory (add_skip_for_block memory blank 11 id_b (id_a ∷ [])) 10 id_a
      (id_b ∷ [])

get_entries_to_prune-exact_example :
    get_entries_to_prune memory skip_entries (to_be_bytes 8 11)
    ≡ map
        (λ (s : SkipBlock). ok (by_block_key s.daa_score s.block_hash, join s.tx_ids))
        (retain (λ (s : SkipBlock). ltb s.daa_score 11) skip_blocks)
unfolding memory blank put lookup ◌=ᵇ◌ lex_ltb add_skip_for_block by_block_key to_be_bytes
get_entries_to_prune-exact_example =
    get_entries_to_prune-exact memory skip_entries 11 skip_blocks (omega arith)
      ((omega arith, (refl, tt)), ((omega arith, (refl, tt)), tt)) refl

abbrev handshake : HandshakeKeyForResolution
handshake = record {
  block_time = replicate 8 1;
  block_hash = id_a;
  receiver = default_address;
  version = 0;
  tx_id = id_b;
  attempt_count = 10;
}

abbrev message : ContextualMessageKeyForResolution
message = record {
  alias = replicate 16 97;
  block_time = replicate 8 1;
  block_hash = id_a;
  version = 1;
  tx_id = id_b;
  attempt_count = 10;
}

abbrev payment : PaymentKeyForResolution
payment = record {
  block_time = replicate 8 1;
  block_hash = id_a;
  receiver = default_address;
  version = 1;
  tx_id = id_b;
  attempt_count = 10;
}

resolution_key_round_trip_example :
    (handshake_from_bytes (handshake_bytes handshake) ≡ ok handshake)
    × (contextual_from_bytes (contextual_bytes message) ≡ ok message)
    × (payment_from_bytes (payment_bytes payment) ≡ ok payment)
resolution_key_round_trip_example =
    resolution_key_round_trip handshake message payment
      (record { block_time = refl; block_hash = refl; receiver = refl; tx_id = refl })
      (record { alias = refl; block_time = refl; block_hash = refl; tx_id = refl })
      (record { block_time = refl; block_hash = refl; receiver = refl; tx_id = refl })
