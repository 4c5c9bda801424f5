-- ===== src/Examples/Prune.antt =====
-- Examples for the prunings.
use local_rusty_indexer_poc.Prelude.{
  ℕ, ◌≡◌, refl, false, none, List, [], ◌∷◌, ok, arith, if◌then◌else◌,
}
use local_rusty_indexer_poc.Bytes.{Bytes, ◌=ᵇ◌}
use local_rusty_indexer_poc.Bytes.Endian.{to_be_bytes, lex_ltb}
use local_rusty_indexer_poc.Store.{lookup}
use local_rusty_indexer_poc.Store.Scan.{mem}
use local_rusty_indexer_poc.Store.Memory.{memory, put}
use local_rusty_indexer_poc.Keyspace.{Keyspace}
use local_rusty_indexer_poc.Headers.Compact.{insert_compact_header}
use local_rusty_indexer_poc.Headers.DaaIndex.{insert_index, make_key}
use local_rusty_indexer_poc.Processing.Skip.{add_skip_for_block, by_block_key, mark_skip}
use local_rusty_indexer_poc.Processing.Pruning.{SkipBlock}
use local_rusty_indexer_poc.Periodic.{prune_block_headers, prune_skip_transactions}
use local_rusty_indexer_poc.Periodic.Pruned.{
  hashes, index_keys, expired, expired_blocks, skipped_ids, block_keys, prune_block_headers-exact,
  prune_skip_transactions-exact,
}
use local_rusty_indexer_poc.Examples.Base.{blank, keyspace, id_a, id_b}

-- an old position and a recent one
abbrev positions : List (ℕ × Bytes)
positions = (10, id_a) ∷ (5000000, id_b) ∷ []

abbrev index : memory.Tree
index = insert_index memory (insert_index memory blank 5000000 id_b) 10 id_a

abbrev headers : memory.Tree
headers = insert_compact_header memory blank id_a 100 10

prune_block_headers-exact_example :
    (headers' : memory.Tree) × (index' : memory.Tree) × (prune_block_headers memory 5000000
        (headers, index)
      ≡ ok (headers', index'))
    × ((j : Bytes)
        → memory.get headers' j
          ≡ (if mem j (hashes (expired 5000000 positions)) then none else memory.get headers j))
    × ((j : Bytes)
        → memory.get index' j
          ≡ (if mem j (index_keys (expired 5000000 positions)) then none else memory.get index j))
unfolding memory blank put lookup ◌=ᵇ◌ lex_ltb insert_index make_key to_be_bytes
prune_block_headers-exact_example =
    prune_block_headers-exact memory 5000000 headers index positions (omega arith)
      ((omega arith, refl), ((omega arith, refl), tt)) refl

abbrev skip_blocks : List SkipBlock
skip_blocks = record { daa_score = 10; block_hash = id_a; tx_ids = id_b ∷ [] } ∷ []

abbrev with_skips : Keyspace memory
with_skips = record keyspace {
  skip_tx = mark_skip memory blank id_b;
  skip_tx_by_block = add_skip_for_block memory blank 10 id_a (id_b ∷ []);
}

prune_skip_transactions-exact_example :
    (ks' : Keyspace memory) × (prune_skip_transactions memory 5000000 false with_skips ≡ ok ks')
    × ((j : Bytes)
        → memory.get ks'.skip_tx j ≡ (
            if mem j (skipped_ids (expired_blocks 5000000 skip_blocks))
            then none
            else memory.get with_skips.skip_tx j))
    × ((j : Bytes)
        → memory.get ks'.skip_tx_by_block j ≡ (
            if mem j (block_keys (expired_blocks 5000000 skip_blocks))
            then none
            else memory.get with_skips.skip_tx_by_block j))
unfolding memory blank put lookup ◌=ᵇ◌ lex_ltb add_skip_for_block by_block_key to_be_bytes
prune_skip_transactions-exact_example =
    prune_skip_transactions-exact memory 5000000 with_skips skip_blocks (omega arith)
      (((omega arith, (refl, tt)), refl), tt) refl
