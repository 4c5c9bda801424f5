-- ===== src/HistoricalSyncer/Ending.antt =====
-- How a sync ends, and what it leaves of its gap.
use local_rusty_indexer_poc.Prelude.{
  ◌≡◌, refl, ◌∙◌, ◌+◌, ◌%◌, ◌^◌, ◌++◌, length, true, false, List, [], ◌∷◌, if◌then◌else◌,
  Bool-cases, inl, inr, Result, ok, err,
}
use local_rusty_indexer_poc.Progress.{Uint192, log_progress}
use local_rusty_indexer_poc.Store.{Fjall}
use local_rusty_indexer_poc.Headers.Gaps.{remove_gap, from_cursors}
use local_rusty_indexer_poc.HistoricalSyncer.{
  Position, RpcBlock, SyncTargetStatus, process_blocks_batch, is_sync_complete, Round, shutdown,
  shutdown_closed, batch, failed, HistoricalDataSyncer, Ended, returned, error, same_gap,
  shrink_gap, close_gap, sync,
}
use local_rusty_indexer_poc.HistoricalSyncer.Shown.{any_shows_from, hashes, late_hashes, reach}
use local_rusty_indexer_poc.HistoricalSyncer.Target.{Processed, process_blocks_batch-Processed}
use local_rusty_indexer_poc.HistoricalSyncer.Outcome.{Outcome, shrunk, outcome}

module _ (db : Fjall) where
  -- what there is to see of a result of `sync`
  abbrev pub seen : HistoricalDataSyncer db × Ended db → Outcome db
  seen (s, ended) = record { gaps = s.block_gaps; sent = s.sent; ended = ended }

  -- the outcome from a state of the sync
  abbrev pub outcome_of : Uint192 → List Round → HistoricalDataSyncer db → Outcome db
  outcome_of w rounds s =
      outcome db w s.from_cursor s.position.target_cursor (hashes s.position.anticone_candidates)
        s.position.current_cursor s.batches_processed s.block_gaps s.sent rounds

  shrink_gap-shrunk :
      (s : HistoricalDataSyncer db)
      → seen (shrink_gap db s, returned) ≡ record {
        gaps =
            shrunk db s.block_gaps s.from_cursor s.position.current_cursor s.position.target_cursor;
        sent = s.sent;
        ended = returned;
      }
  unfolding shrink_gap
  shrink_gap-shrunk s =
      elim (Bool-cases (
        same_gap db (from_cursors s.position.current_cursor s.position.target_cursor)
          (from_cursors s.from_cursor s.position.target_cursor))) [
            | inl e ↦ rw e refl
            | inr e ↦ rw e refl
          ]

  -- the state after a batch is sent
  abbrev after_batch : List RpcBlock → Position → HistoricalDataSyncer db → HistoricalDataSyncer db
  after_batch blocks position s = record s {
    position = position;
    sent = s.sent ++ blocks ∷ [];
    total_blocks_processed = (s.total_blocks_processed + length blocks) % 2 ^ 64;
    batches_processed = (s.batches_processed + 1) % 2 ^ 64;
  }

  -- what follows a batch that is sent
  batch-outcome :
      (w : Uint192) (blocks : List RpcBlock) (rounds : List Round) (s : HistoricalDataSyncer db)
      (status : SyncTargetStatus) (position : Position)
      → Processed s.position.target_cursor
          (hashes s.position.anticone_candidates)
          blocks
          s.position.current_cursor
          (status, position)
      → seen (sync db w rounds (after_batch blocks position s))
        ≡ outcome_of w rounds (after_batch blocks position s)
      → seen
          (elim (log_progress w
              ((s.batches_processed + 1) % 2 ^ 64)
              s.from_cursor.blue_work
              position.current_cursor.blue_work
              position.target_cursor.blue_work)
            as (λ _. HistoricalDataSyncer db × Ended db) [
              | err e ↦ (after_batch blocks position s, error e)
              | ok _ ↦
                  if is_sync_complete status
                  then (close_gap db (after_batch blocks position s), returned)
                  else sync db w rounds (after_batch blocks position s)
            ])
        ≡ outcome_of w (batch blocks true ∷ rounds) s
  unfolding close_gap
  batch-outcome w blocks rounds s status position (complete, same, place, known) later =
      rw (place, same)
        (logged (
          log_progress w ((s.batches_processed + 1) % 2 ^ 64) s.from_cursor.blue_work
            (reach s.position.target_cursor (hashes s.position.anticone_candidates) blocks
              s.position.current_cursor).blue_work
            s.position.target_cursor.blue_work))
    where
      logged :
          (r : Result (Unit {0}))
          → seen (elim r as (λ _. HistoricalDataSyncer db × Ended db) [
            | err e ↦ (after_batch blocks position s, error e)
            | ok _ ↦
                if is_sync_complete status
                then (close_gap db (after_batch blocks position s), returned)
                else sync db w rounds (after_batch blocks position s)
          ])
            ≡ (elim r as (λ _. Outcome db) [
              | err e ↦ record {
                gaps = s.block_gaps;
                sent = s.sent ++ blocks ∷ [];
                ended = error e;
              }
              | ok _ ↦
                  if any_shows_from s.position.target_cursor
                    (hashes s.position.anticone_candidates)
                    blocks
                  then record {
                    gaps =
                        remove_gap db s.block_gaps
                          (from_cursors s.from_cursor s.position.target_cursor);
                    sent = s.sent ++ blocks ∷ [];
                    ended = returned;
                  }
                  else outcome db w s.from_cursor s.position.target_cursor
                      (hashes s.position.anticone_candidates
                        ++ late_hashes s.position.target_cursor blocks)
                      (reach s.position.target_cursor
                        (hashes s.position.anticone_candidates)
                        blocks
                        s.position.current_cursor)
                      ((s.batches_processed + 1) % 2 ^ 64)
                      s.block_gaps
                      (s.sent ++ blocks ∷ [])
                      rounds
            ])
      logged (err e) = refl
      logged (ok _) =
          elim (Bool-cases (
            any_shows_from s.position.target_cursor (hashes s.position.anticone_candidates)
              blocks)) [
                | inl shown ↦ rw (complete, shown, same) refl
                | inr none_shows ↦
                    rw (complete, none_shows) (later ∙ rw (same, place, known none_shows) refl)
              ]

  -- Whatever the rounds, the sync leaves the outcome that they have by the blocks alone. A closed
  -- shutdown channel, a failed request, a batch that the block handler does not take and a
  -- percentage that is due and cannot be computed end it with their error and leave the gaps as they
  -- were. Without these, the batch that shows the target closes the gap and the sync returns; the
  -- shutdown signal, met before, replaces the gap by the one from where the last batch ended to the
  -- target, or leaves it when that is the same, and the sync returns; and otherwise it still waits.
  -- The block handler has every batch up to there, in order, without the one that it did not take.
  pub sync-outcome :
      (w : Uint192) (rounds : List Round) (s : HistoricalDataSyncer db)
      → seen (sync db w rounds s)
        ≡ outcome db w s.from_cursor s.position.target_cursor
            (hashes s.position.anticone_candidates)
            s.position.current_cursor
            s.batches_processed
            s.block_gaps
            s.sent
            rounds
  unfolding sync
  sync-outcome w [] s = refl
  sync-outcome w (shutdown ∷ rounds) s = shrink_gap-shrunk s
  sync-outcome w (shutdown_closed ∷ rounds) s = refl
  sync-outcome w (failed e ∷ rounds) s = refl
  sync-outcome w (batch blocks false ∷ rounds) s = refl
  sync-outcome w (batch blocks true ∷ rounds) s =
      let status = (process_blocks_batch blocks s.position).0 in
      let position = (process_blocks_batch blocks s.position).1 in
      batch-outcome w blocks rounds s status position
        (process_blocks_batch-Processed blocks s.position)
        (sync-outcome w rounds (after_batch blocks position s))
