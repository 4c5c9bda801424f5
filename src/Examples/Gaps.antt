-- ===== src/Examples/Gaps.antt =====
-- Examples for the gaps.
use local_rusty_indexer_poc.Prelude.{
  true, ◌≡◌, refl, List, [], ◌∷◌, map, retain, not, ltb, arith, ok,
}
use local_rusty_indexer_poc.Bytes.{◌=ᵇ◌}
use local_rusty_indexer_poc.Bytes.Endian.{to_be_bytes, lex_ltb}
use local_rusty_indexer_poc.Store.{lookup}
use local_rusty_indexer_poc.Store.Memory.{memory, put}
use local_rusty_indexer_poc.Headers.Gaps.{
  BlockGap, gap_key_bytes, add_gap, add_gaps_batch, from_cursors, get_all_gaps_since_daa,
}
use local_rusty_indexer_poc.Headers.GapScan.{get_all_gaps_since_daa-exact}
use local_rusty_indexer_poc.HistoricalSyncer.{HistoricalDataSyncer, Round, shutdown, batch, sync}
use local_rusty_indexer_poc.HistoricalSyncer.Ending.{seen, sync-outcome}
use local_rusty_indexer_poc.HistoricalSyncer.Outcome.{outcome}
use local_rusty_indexer_poc.Examples.Chain.{late, merging, position}
use local_rusty_indexer_poc.Examples.Base.{blank, work, cursor_a, cursor_b}

abbrev two_gaps : List BlockGap
two_gaps = from_cursors cursor_a cursor_b ∷ from_cursors cursor_b cursor_a ∷ []

abbrev gaps : memory.Tree
gaps = add_gaps_batch memory blank two_gaps

get_all_gaps_since_daa-exact_example :
    get_all_gaps_since_daa memory gaps 11
    ≡ map ok (retain (λ (gap : BlockGap). not (ltb gap.from_daa_score 11)) two_gaps)
unfolding memory blank put lookup ◌=ᵇ◌ lex_ltb add_gaps_batch add_gap gap_key_bytes to_be_bytes
get_all_gaps_since_daa-exact_example =
    get_all_gaps_since_daa-exact memory gaps 11 two_gaps (omega arith)
      (
        (omega arith, omega arith, refl, omega arith, refl, omega arith),
        ((omega arith, omega arith, refl, omega arith, refl, omega arith), tt),
      )
      refl

abbrev syncer : HistoricalDataSyncer memory
syncer = record {
  from_cursor = cursor_a;
  position = position;
  block_gaps = gaps;
  sent = [];
  total_blocks_processed = 0;
  batches_processed = 0;
}

-- a batch with a late block, a batch with a chain block that merges it, and the shutdown signal
abbrev rounds : List Round
rounds = batch (late ∷ []) true ∷ batch (merging ∷ []) true ∷ shutdown ∷ []

sync-outcome_example :
    seen memory (sync memory work rounds syncer)
    ≡ outcome memory work cursor_a cursor_b [] cursor_a 0 gaps [] rounds
sync-outcome_example = sync-outcome memory work rounds syncer
