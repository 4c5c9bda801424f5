-- ===== src/HistoricalSyncer/Outcome.antt =====
-- What a sync of blocks between two cursors leaves, by the rounds of its loop alone.
use local_rusty_indexer_poc.Prelude.{
  ℕ, ◌+◌, ◌%◌, ◌^◌, ◌++◌, true, false, List, [], ◌∷◌, if◌then◌else◌, ok, err, Error,
}
use local_rusty_indexer_poc.Bytes.{Bytes}
use local_rusty_indexer_poc.Metadata.{Cursor}
use local_rusty_indexer_poc.Progress.{Uint192, log_progress}
use local_rusty_indexer_poc.Store.{Fjall}
use local_rusty_indexer_poc.Headers.Gaps.{add_gap, remove_gap, from_cursors}
use local_rusty_indexer_poc.HistoricalSyncer.{
  RpcBlock, Round, shutdown, shutdown_closed, batch, failed, Ended, returned, waiting, error,
  same_gap,
}
use local_rusty_indexer_poc.HistoricalSyncer.Shown.{any_shows_from, late_hashes, reach}

module _ (db : Fjall) where
  -- what a sync leaves: the partition of gaps, the batches that the block handler has, and how it
  -- ended
  pub record Outcome : Type 0 where
    pub gaps : db.Tree
    pub sent : List (List RpcBlock)
    pub ended : Ended db

  -- the gaps after the part of the old one that is left replaces it, unless they are the same
  abbrev pub shrunk : db.Tree → Cursor → Cursor → Cursor → db.Tree
  shrunk gaps from current target =
      if same_gap db (from_cursors current target) (from_cursors from target)
      then gaps
      else remove_gap db (add_gap db gaps (from_cursors current target)) (from_cursors from target)

  -- The outcome by the rounds alone: `late` are the late blocks of the batches so far, `current` is
  -- where the last one left the sync, and `n` counts them. The gap is closed by the batch that shows
  -- the target and by nothing else, and is shrunk by the shutdown signal and by nothing else.
  abbrev pub outcome :
      Uint192
      → Cursor
      → Cursor
      → List Bytes
      → Cursor
      → ℕ
      → db.Tree
      → List (List RpcBlock)
      → List Round
      → Outcome
  outcome w from target late current n gaps sent [] = record {
    gaps = gaps;
    sent = sent;
    ended = waiting;
  }
  outcome w from target late current n gaps sent (shutdown ∷ rounds) = record {
    gaps = shrunk gaps from current target;
    sent = sent;
    ended = returned;
  }
  outcome w from target late current n gaps sent (shutdown_closed ∷ rounds) = record {
    gaps = gaps;
    sent = sent;
    ended = error Error.channel_closed;
  }
  outcome w from target late current n gaps sent (failed e ∷ rounds) = record {
    gaps = gaps;
    sent = sent;
    ended = error e;
  }
  outcome w from target late current n gaps sent (batch blocks false ∷ rounds) = record {
    gaps = gaps;
    sent = sent;
    ended = error Error.channel_closed;
  }
  outcome w from target late current n gaps sent (batch blocks true ∷ rounds) =
      let now = reach target late blocks current in
      let count = (n + 1) % 2 ^ 64 in
      let sent' = sent ++ blocks ∷ [] in
      let rest =
        outcome w from target (late ++ late_hashes target blocks) now count gaps sent' rounds in
      elim (log_progress w count from.blue_work now.blue_work target.blue_work) [
        | err e ↦ record { gaps = gaps; sent = sent'; ended = error e }
        | ok _ ↦
            if any_shows_from target late blocks
            then record {
              gaps = remove_gap db gaps (from_cursors from target);
              sent = sent';
              ended = returned;
            }
            else rest
      ]
