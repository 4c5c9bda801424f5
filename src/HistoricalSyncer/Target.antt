-- ===== src/HistoricalSyncer/Target.antt =====
-- When a batch ends the sync.
use mathlib.Core.List.{append-nil}
use local_rusty_indexer_poc.Prelude.{
  ◌≡◌, refl, sym, ◌∙◌, true, false, List, [], ◌∷◌, ◌++◌, Bool-cases, inl, inr,
}
use local_rusty_indexer_poc.Bytes.{Bytes}
use local_rusty_indexer_poc.Metadata.{Cursor}
use local_rusty_indexer_poc.HistoricalSyncer.{
  Position, RpcBlock, SyncTargetStatus, not_reached, target_found_directly,
  target_found_via_anticone, fold_blocks, process_blocks_batch, is_sync_complete,
}
use local_rusty_indexer_poc.HistoricalSyncer.Shown.{
  shows, hashes, late_hashes, any_shows, any_shows_from, reach,
}
use local_rusty_indexer_poc.HistoricalSyncer.Batched.{Batched, fold_blocks-Batched}

-- the cursor of the last block, or the given one
abbrev pub last_header : List RpcBlock → Cursor → Cursor
last_header [] c = c
last_header (block ∷ blocks) c = last_header blocks block.header

-- without a block that shows the target, a batch leaves the sync at its last block
reach-last_header :
    (target : Cursor) (late : List Bytes) (blocks : List RpcBlock) (c : Cursor)
    → any_shows_from target late blocks ≡ false
    → reach target late blocks c ≡ last_header blocks c
reach-last_header target late [] c h = refl
reach-last_header target late (block ∷ blocks) c h = elim (Bool-cases (shows target late block)) [
  | inl e ↦ let impossible : true ≡ false = rw e at h in absurd cc
  | inr e ↦ rw e (
      reach-last_header target (late ++ late_hashes target (block ∷ [])) blocks block.header
        (rw e at h))
]

-- what a batch leaves of the status and the position
abbrev pub Processed :
    Cursor → List Bytes → List RpcBlock → Cursor → SyncTargetStatus × Position → Type 0
Processed target late blocks c (status, p) =
    (is_sync_complete status ≡ any_shows_from target late blocks)
    × (p.target_cursor ≡ target)
    × (p.current_cursor ≡ reach target late blocks c)
    × (any_shows_from target late blocks ≡ false
        → hashes p.anticone_candidates ≡ late ++ late_hashes target blocks)

finish-Processed :
    (target : Cursor) (late : List Bytes) (blocks : List RpcBlock) (c last_cursor : Cursor)
    (status : SyncTargetStatus) (p : Position)
    → Batched target late blocks c status last_cursor p
    → Processed target late blocks c (elim status as (λ _. SyncTargetStatus × Position) [
      | not_reached cursor ↦ (not_reached cursor, record p { current_cursor = cursor })
      | target_found_directly ↦ (target_found_directly, record p { current_cursor = last_cursor })
      | target_found_via_anticone ↦
          (target_found_via_anticone, record p { current_cursor = last_cursor })
    ])
unfolding is_sync_complete
finish-Processed target late blocks c last_cursor (not_reached cursor) p
      (none_shows, t, place, known) =
    (sym none_shows, t, place, λ _. known)
finish-Processed target late blocks c last_cursor target_found_directly p (shown, t, place) =
    (sym shown, t, place, λ h. absurd cc)
finish-Processed target late blocks c last_cursor target_found_via_anticone p (shown, t, place) =
    (sym shown, t, place, λ h. absurd cc)

pub process_blocks_batch-Processed :
    (blocks : List RpcBlock) (p : Position)
    → Processed p.target_cursor
        (hashes p.anticone_candidates)
        blocks
        p.current_cursor
        (process_blocks_batch blocks p)
unfolding process_blocks_batch is_sync_complete
process_blocks_batch-Processed [] p =
    (refl, refl, refl, λ _. sym (append-nil (hashes p.anticone_candidates)))
process_blocks_batch-Processed (block ∷ blocks) p =
    let folded = fold_blocks (block ∷ blocks) (not_reached p.current_cursor) p.current_cursor p in
    finish-Processed p.target_cursor (hashes p.anticone_candidates) (block ∷ blocks)
      p.current_cursor folded.1 folded.0 folded.2
      (fold_blocks-Batched (block ∷ blocks) p.current_cursor p)

-- A batch completes the sync exactly when one of its blocks shows that the target is reached: it is
-- the target, or a chain block whose merge sets hold the target, a candidate of an earlier batch, or
-- a block in front of it in this batch that is not on the chain, has its verbose data, and has at
-- least the target's blue work.
pub process_blocks_batch_complete :
    (blocks : List RpcBlock) (p : Position)
    → is_sync_complete (process_blocks_batch blocks p).0 ≡ any_shows p blocks
process_blocks_batch_complete blocks p = (process_blocks_batch-Processed blocks p).0

-- When no block of a batch shows the target, the next batch is asked for from the batch's last
-- block, or, after an empty batch, from where it was.
pub process_blocks_batch-progress :
    (blocks : List RpcBlock) (p : Position)
    → any_shows p blocks ≡ false
    → (process_blocks_batch blocks p).1.current_cursor ≡ last_header blocks p.current_cursor
process_blocks_batch-progress blocks p h =
    (process_blocks_batch-Processed blocks p).2
    ∙ reach-last_header p.target_cursor (hashes p.anticone_candidates) blocks p.current_cursor h
