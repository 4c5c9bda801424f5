-- ===== src/Progress.antt =====
-- The percentage that both historical syncers log at every 100th batch, in
-- indexer-lib/src/historical_syncer.rs and indexer-lib/src/selected_chain_syncer.rs. The numbers of
-- 192 bits are a dependency's: its subtraction and its conversion are parameters.
use local_rusty_indexer_poc.Prelude.{
  ℕ, ◌*◌, ◌/◌, ◌%◌, ◌^◌, Bool, true, false, Option, ltb, ◌==◌, if◌then◌else◌, Result, ok, err,
  or_fail, panicked, ◌>>=◌,
}

-- `-`, which panics at `none`, and `as_u128`
pub record Uint192 : Type 0 where
  pub sub : ℕ → ℕ → Option ℕ
  pub as_u128 : ℕ → ℕ

-- The share of the work that is done, by the blue work at the start, now, and at the target. The
-- product of 128 bits wraps, and dividing by 0 panics.
unfoldable pub percentage : Uint192 → ℕ → ℕ → ℕ → Result ℕ
percentage w initial current target = do
  total_work_to_sync ← or_fail (w.sub target initial) panicked
  work_synced ← or_fail (w.sub current initial) panicked
  share (w.as_u128 work_synced) (w.as_u128 total_work_to_sync) (ltb 0 total_work_to_sync)
  where
    share : ℕ → ℕ → Bool → Result ℕ
    share done total false = ok 100
    share done total true =
        if total == 0 then err panicked else ok (((done * 100) % 2 ^ 128) / total)

-- what is computed after that many batches: the percentage at every 100th, else nothing
unfoldable pub log_progress : Uint192 → ℕ → ℕ → ℕ → ℕ → Result (Unit {0})
unfolding percentage
log_progress w batches_processed initial current target =
    if batches_processed % 100 == 0
    then (do _ ← percentage w initial current target; ok tt)
    else ok tt
