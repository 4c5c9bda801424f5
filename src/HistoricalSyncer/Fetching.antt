-- ===== src/HistoricalSyncer/Fetching.antt =====
-- How a round of the loop of indexer-lib/src/historical_syncer.rs comes about, where a sync begins,
-- and its statistics.
use local_rusty_indexer_poc.Prelude.{ℕ, Bool, Option, none, some, List, [], length, Result, ok, err}
use local_rusty_indexer_poc.Metadata.{Cursor}
use local_rusty_indexer_poc.HistoricalSyncer.{
  RpcBlock, HistoricalDataSyncer, Round, shutdown, shutdown_closed, batch, failed,
}
use local_rusty_indexer_poc.Resolver.{Attempt, with_retries}
use local_rusty_indexer_poc.Store.{Fjall}

-- the retry loop around `GetBlocks`
abbrev pub get_blocks_with_retries :
    List (Attempt (List RpcBlock)) → Option (Result (List RpcBlock))
get_blocks_with_retries attempts = with_retries attempts

-- the shutdown channel: silent so far, a signal, or closed
pub data Signal : Type 0 where
  silent sent closed : Signal

-- The biased select: the signal first, then the call with its retries; `taken` says whether the
-- block handler takes the batch. `none` while the call goes on.
unfoldable pub next_round : Signal → List (Attempt (List RpcBlock)) → Bool → Option Round
unfolding with_retries
next_round sent attempts taken = some shutdown
next_round closed attempts taken = some shutdown_closed
next_round silent attempts taken = elim (get_blocks_with_retries attempts) [
  | none ↦ none
  | some (err e) ↦ some (failed e)
  | some (ok blocks) ↦ some (batch blocks taken)
]

pub record SyncStats : Type 0 where
  pub total_blocks_processed : ℕ
  pub batches_processed : ℕ
  pub current_blue_work : ℕ
  pub target_blue_work : ℕ
  pub anticone_candidates_count : ℕ

module _ (db : Fjall) where
  -- `HistoricalDataSyncer::new`
  unfoldable pub new_data_syncer : Cursor → Cursor → db.Tree → HistoricalDataSyncer db
  new_data_syncer start_cursor target_cursor block_gaps = record {
    from_cursor = start_cursor;
    position = record {
      current_cursor = start_cursor;
      target_cursor = target_cursor;
      anticone_candidates = [];
    };
    block_gaps = block_gaps;
    sent = [];
    total_blocks_processed = 0;
    batches_processed = 0;
  }

  unfoldable pub get_sync_stats : HistoricalDataSyncer db → SyncStats
  get_sync_stats s = record {
    total_blocks_processed = s.total_blocks_processed;
    batches_processed = s.batches_processed;
    current_blue_work = s.position.current_cursor.blue_work;
    target_blue_work = s.position.target_cursor.blue_work;
    anticone_candidates_count = length s.position.anticone_candidates;
  }
