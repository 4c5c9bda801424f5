-- ===== src/HistoricalSyncer/Batched.antt =====
-- What the fold over a batch of blocks finds, and where it stops.
use mathlib.Core.List.{append-nil, append_assoc}
use local_rusty_indexer_poc.Prelude.{
  ◌≡◌, refl, sym, ap, ◌∙◌, true, false, none, some, List, [], ◌∷◌, ◌++◌, Option,
}
use local_rusty_indexer_poc.Bytes.{Bytes}
use local_rusty_indexer_poc.Metadata.{Cursor}
use local_rusty_indexer_poc.HistoricalSyncer.{
  Position, RpcBlock, SyncTargetStatus, not_reached, target_found_directly,
  target_found_via_anticone, fold_block, fold_blocks, is_sync_complete,
}
use local_rusty_indexer_poc.HistoricalSyncer.Shown.{
  shows, hashes, late_hashes, late_hashes-cons, any_shows_from, reach, Stepped, fold_block-Stepped,
}

-- where a status, the last cursor and a position stand after some blocks, from a cursor
abbrev pub Batched :
    Cursor → List Bytes → List RpcBlock → Cursor → SyncTargetStatus → Cursor → Position → Type 0
Batched target late blocks c (not_reached cursor) last p =
    (any_shows_from target late blocks ≡ false)
    × (p.target_cursor ≡ target)
    × (cursor ≡ reach target late blocks c)
    × (hashes p.anticone_candidates ≡ late ++ late_hashes target blocks)
Batched target late blocks c target_found_directly last p =
    (any_shows_from target late blocks ≡ true)
    × (p.target_cursor ≡ target)
    × (last ≡ reach target late blocks c)
Batched target late blocks c target_found_via_anticone last p =
    (any_shows_from target late blocks ≡ true)
    × (p.target_cursor ≡ target)
    × (last ≡ reach target late blocks c)

fold-goes_on :
    (block : RpcBlock) (blocks : List RpcBlock) (c : Cursor) (p : Position)
    → (fold_block p block).0 ≡ none
    → fold_blocks (block ∷ blocks) (not_reached c) c p
      ≡ fold_blocks blocks (not_reached block.header) block.header (fold_block p block).1
unfolding fold_blocks
fold-goes_on block blocks c p e = rw (fold_blocks, e) refl

fold-ends :
    (block : RpcBlock) (blocks : List RpcBlock) (c : Cursor) (p : Position) (s : SyncTargetStatus)
    → (fold_block p block).0 ≡ some s
    → fold_blocks (block ∷ blocks) (not_reached c) c p ≡ (s, block.header, (fold_block p block).1)
unfolding fold_blocks
fold-ends block blocks c p s e = rw (fold_blocks, e) refl

-- a batch whose first block shows the target
stopped-Batched :
    (target : Cursor) (late : List Bytes) (block : RpcBlock) (blocks : List RpcBlock) (c : Cursor)
    (s : SyncTargetStatus) (p : Position)
    → shows target late block ≡ true
    → p.target_cursor ≡ target
    → is_sync_complete s ≡ true
    → Batched target late (block ∷ blocks) c s block.header p
unfolding is_sync_complete
stopped-Batched target late block blocks c (not_reached cursor) p h t complete = absurd cc
stopped-Batched target late block blocks c target_found_directly p h t complete =
    (rw h refl, t, rw h refl)
stopped-Batched target late block blocks c target_found_via_anticone p h t complete =
    (rw h refl, t, rw h refl)

-- a batch whose first block does not, by the rest
passed-Batched :
    (target : Cursor) (late : List Bytes) (block : RpcBlock) (blocks : List RpcBlock)
    (c last : Cursor) (s : SyncTargetStatus) (p : Position)
    → shows target late block ≡ false
    → Batched target (late ++ late_hashes target (block ∷ [])) blocks block.header s last p
    → Batched target late (block ∷ blocks) c s last p
passed-Batched target late block blocks c last (not_reached cursor) p h
      (none_shows, t, place, known) =
    (
      rw h none_shows,
      t,
      rw h place,
      known
          ∙ append_assoc late (late_hashes target (block ∷ [])) (late_hashes target blocks)
          ∙ ap (λ l. late ++ l) (late_hashes-cons target block blocks),
    )
passed-Batched target late block blocks c last target_found_directly p h (shown, t, place) =
    (rw h shown, t, rw h place)
passed-Batched target late block blocks c last target_found_via_anticone p h (shown, t, place) =
    (rw h shown, t, rw h place)

pub fold_blocks-Batched :
    (blocks : List RpcBlock) (c : Cursor) (p : Position)
    → Batched p.target_cursor
        (hashes p.anticone_candidates)
        blocks
        c
        (fold_blocks blocks (not_reached c) c p).0
        (fold_blocks blocks (not_reached c) c p).1
        (fold_blocks blocks (not_reached c) c p).2
unfolding fold_blocks
fold_blocks-Batched [] c p = (refl, refl, refl, sym (append-nil (hashes p.anticone_candidates)))
fold_blocks-Batched (block ∷ blocks) c p =
    step (fold_block p block).0 refl
      (fold_blocks-Batched blocks block.header (fold_block p block).1) (fold_block-Stepped p block)
  where
    step :
        (found : Option SyncTargetStatus)
        → (fold_block p block).0 ≡ found
        → Batched
            (fold_block p block).1.target_cursor
            (hashes (fold_block p block).1.anticone_candidates)
            blocks
            block.header
            (fold_blocks blocks (not_reached block.header) block.header (fold_block p block).1).0
            (fold_blocks blocks (not_reached block.header) block.header (fold_block p block).1).1
            (fold_blocks blocks (not_reached block.header) block.header (fold_block p block).1).2
        → Stepped p block (fold_block p block).0 (fold_block p block).1
        → Batched p.target_cursor
            (hashes p.anticone_candidates)
            (block ∷ blocks)
            c
            (fold_blocks (block ∷ blocks) (not_reached c) c p).0
            (fold_blocks (block ∷ blocks) (not_reached c) c p).1
            (fold_blocks (block ∷ blocks) (not_reached c) c p).2
    step none e rest s =
        let (h, t, known) : Stepped p block none (fold_block p block).1 = rw e at s in
        rw (fold-goes_on block blocks c p e) (
          passed-Batched p.target_cursor (hashes p.anticone_candidates) block blocks c _ _ _ h
            (rw (t, known) at rest))
    step (some status) e rest s =
        let (h, t, complete) : Stepped p block (some status) (fold_block p block).1 = rw e at s in
        rw (fold-ends block blocks c p status e) (
          stopped-Batched p.target_cursor (hashes p.anticone_candidates) block blocks c status
            (fold_block p block).1 h t complete)
