-- ===== src/HistoricalSyncer/Shown.antt =====
-- What it means that a batch of blocks shows the target of a sync, from the blocks alone.
use mathlib.Core.List.{append-nil}
use local_rusty_indexer_poc.Prelude.{
  ◌≡◌, refl, sym, ap, ◌∙◌, Bool, true, false, not, ◌&&◌, ◌||◌, Option, none, some, List, [], ◌∷◌,
  ◌++◌, map, leb, if◌then◌else◌, arith, Bool-cases, inl, inr,
}
use local_rusty_indexer_poc.Bytes.{Bytes, ◌=ᵇ◌}
use local_rusty_indexer_poc.FifoSet.{mem}
use local_rusty_indexer_poc.Metadata.{Cursor}
use local_rusty_indexer_poc.HistoricalSyncer.{
  Position, RpcBlock, VerboseData, has, in_merge_sets, any_candidate, check_target_in_merge_sets,
  candidate, fold_block, SyncTargetStatus, is_sync_complete,
}

-- whether a block's merge sets hold one of some hashes
abbrev pub merges : VerboseData → List Bytes → Bool
merges v [] = false
merges v (h ∷ hs) = mem h (v.merge_set_blues_hashes ++ v.merge_set_reds_hashes) || merges v hs

-- a block beside the chain with at least the target's blue work, so that merging it merges the
-- target's past or the target
abbrev pub is_late : Cursor → RpcBlock → Bool
is_late target block = elim block.verbose_data [
  | none ↦ false
  | some v ↦ leb target.blue_work block.header.blue_work && not v.is_chain_block
]

-- A block shows the target when it is the target, or a chain block that merges the target or one of
-- the late blocks known so far.
abbrev pub shows : Cursor → List Bytes → RpcBlock → Bool
shows target late block = block.header.hash =ᵇ target.hash || elim block.verbose_data [
  | none ↦ false
  | some v ↦ v.is_chain_block && merges v (target.hash ∷ late)
]

-- the hashes of the late blocks of a list, in order
abbrev pub late_hashes : Cursor → List RpcBlock → List Bytes
late_hashes target [] = []
late_hashes target (block ∷ blocks) =
    if is_late target block
    then block.header.hash ∷ late_hashes target blocks
    else late_hashes target blocks

-- some block of a batch shows the target, with the late blocks in front of it
abbrev pub any_shows_from : Cursor → List Bytes → List RpcBlock → Bool
any_shows_from target late [] = false
any_shows_from target late (block ∷ blocks) =
    shows target late block
    || any_shows_from target (late ++ late_hashes target (block ∷ [])) blocks

-- where a batch leaves the sync: at the first block that shows the target, or at its last block
abbrev pub reach : Cursor → List Bytes → List RpcBlock → Cursor → Cursor
reach target late [] c = c
reach target late (block ∷ blocks) c =
    if shows target late block
    then block.header
    else reach target (late ++ late_hashes target (block ∷ [])) blocks block.header

abbrev pub hashes : List Cursor → List Bytes
hashes cs = map (λ (c : Cursor). c.hash) cs

-- from a position, whose candidates are late blocks of earlier batches
abbrev pub any_shows : Position → List RpcBlock → Bool
any_shows p blocks = any_shows_from p.target_cursor (hashes p.anticone_candidates) blocks

has-mem : (hs : List Bytes) (h : Bytes) → has hs h ≡ mem h hs
has-mem [] h = refl
has-mem (x ∷ hs) h = rw (has-mem hs h) refl

mem_either : (h : Bytes) (xs ys : List Bytes) → (mem h xs || mem h ys) ≡ mem h (xs ++ ys)
mem_either h [] ys = refl
mem_either h (x ∷ xs) ys = ground (arith, mem_either h xs ys)

in_merge_sets-mem :
    (v : VerboseData) (h : Bytes)
    → in_merge_sets v h ≡ mem h (v.merge_set_blues_hashes ++ v.merge_set_reds_hashes)
in_merge_sets-mem v h =
    rw (has-mem v.merge_set_blues_hashes h, has-mem v.merge_set_reds_hashes h)
      (mem_either h v.merge_set_blues_hashes v.merge_set_reds_hashes)

any_candidate-merges :
    (v : VerboseData) (cs : List Cursor) → any_candidate v cs ≡ merges v (hashes cs)
any_candidate-merges v [] = refl
any_candidate-merges v (c ∷ cs) = rw (in_merge_sets-mem v c.hash, any_candidate-merges v cs) refl

if_or : (a b : Bool) → (if a then true else b) ≡ (a || b)
if_or true b = refl
if_or false b = refl

check-merges :
    (p : Position) (v : VerboseData)
    → check_target_in_merge_sets p v
      ≡ merges v (p.target_cursor.hash ∷ hashes p.anticone_candidates)
unfolding check_target_in_merge_sets
check-merges p v =
    if_or (in_merge_sets v p.target_cursor.hash) (any_candidate v p.anticone_candidates)
    ∙ rw (in_merge_sets-mem v p.target_cursor.hash, any_candidate-merges v p.anticone_candidates)
        refl

hashes-append : (cs : List Cursor) (c : Cursor) → hashes (cs ++ c ∷ []) ≡ hashes cs ++ c.hash ∷ []
hashes-append [] c = refl
hashes-append (x ∷ cs) c = ap (◌∷◌ x.hash) (hashes-append cs c)

pub late_hashes-cons :
    (target : Cursor) (block : RpcBlock) (blocks : List RpcBlock)
    → late_hashes target (block ∷ []) ++ late_hashes target blocks
      ≡ late_hashes target (block ∷ blocks)
late_hashes-cons target block blocks = elim (Bool-cases (is_late target block)) [
  | inl e ↦ rw e refl
  | inr e ↦ rw e refl
]

-- what one block of the fold does, if it goes on or stops
abbrev pub Stepped : Position → RpcBlock → Option SyncTargetStatus → Position → Type 0
Stepped p block none p' =
    (shows p.target_cursor (hashes p.anticone_candidates) block ≡ false)
    × (p'.target_cursor ≡ p.target_cursor)
    × (hashes p'.anticone_candidates
        ≡ hashes p.anticone_candidates ++ late_hashes p.target_cursor (block ∷ []))
Stepped p block (some status) p' =
    (shows p.target_cursor (hashes p.anticone_candidates) block ≡ true)
    × (p'.target_cursor ≡ p.target_cursor)
    × (is_sync_complete status ≡ true)

verbose_block-Stepped :
    (p : Position) (block : RpcBlock) (v : Option VerboseData)
    → (block.header.hash =ᵇ p.target_cursor.hash) ≡ false
    → block.verbose_data ≡ v
    → Stepped p block (fold_block p block).0 (fold_block p block).1
unfolding fold_block
verbose_block-Stepped p block none e verbose =
    rw (e, verbose) (rw e refl, refl, sym (append-nil (hashes p.anticone_candidates)))
verbose_block-Stepped p block (some v) e verbose =
    elim (Bool-cases (v.is_chain_block && check_target_in_merge_sets p v)) [
      | inl merged ↦
          rw (e, verbose, merged)
            (rw (e, ← check-merges p v) merged, refl, unfold is_sync_complete in refl)
      | inr other ↦ elim (Bool-cases (candidate p block v)) [
        | inl late ↦
            rw (e, verbose, other, late)
              (
                rw (e, ← check-merges p v) other,
                refl,
                let l : (leb p.target_cursor.blue_work block.header.blue_work
                          && not v.is_chain_block)
                        ≡ true =
                      unfold candidate in late in
                    rw l (hashes-append p.anticone_candidates block.header),
              )
        | inr early ↦
            rw (e, verbose, other, early)
              (
                rw (e, ← check-merges p v) other,
                refl,
                let l : (leb p.target_cursor.blue_work block.header.blue_work
                          && not v.is_chain_block)
                        ≡ false =
                      unfold candidate in early in
                    rw l (sym (append-nil (hashes p.anticone_candidates))),
              )
      ]
    ]

pub fold_block-Stepped :
    (p : Position) (block : RpcBlock)
    → Stepped p block (fold_block p block).0 (fold_block p block).1
unfolding fold_block is_sync_complete
fold_block-Stepped p block = elim (Bool-cases (block.header.hash =ᵇ p.target_cursor.hash)) [
  | inl e ↦ rw e (rw e refl, refl, refl)
  | inr e ↦ verbose_block-Stepped p block block.verbose_data e refl
]
