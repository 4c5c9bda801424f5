-- ===== src/Processing/Pruning.antt =====
-- Which skip entries the pruner is given.
use local_rusty_indexer_poc.Prelude.{
  ℕ, ◌≡◌, refl, ◌<◌, ◌^◌, List, [], ◌∷◌, map, retain, All, ltb, ok, Bool, Bool-cases, inl, inr,
}
use local_rusty_indexer_poc.Bytes.{Bytes}
use local_rusty_indexer_poc.Bytes.Endian.{to_be_bytes}
use local_rusty_indexer_poc.Keys.Layout.{join}
use local_rusty_indexer_poc.Store.{Fjall, Entry}
use local_rusty_indexer_poc.Store.Ordered.{range_to-scored}
use local_rusty_indexer_poc.Processing.TxIds.{IsId, new-join}
use local_rusty_indexer_poc.Processing.Skip.{get_entries_to_prune, prune_entry, by_block_key}

-- what `add_skip_for_block` was called with
pub record SkipBlock : Type 0 where
  pub daa_score : ℕ
  pub block_hash : Bytes
  pub tx_ids : List Bytes

abbrev pub skip_entry : SkipBlock → Entry
skip_entry s = (by_block_key s.daa_score s.block_hash, join s.tx_ids)

abbrev pub IsSkipBlock : SkipBlock → Type 0
IsSkipBlock s = (s.daa_score < 256 ^ 8) × All IsId s.tx_ids

map-prune_entry :
    (l : List SkipBlock)
    → All IsSkipBlock l
    → map prune_entry (map skip_entry l)
      ≡ map (λ (s : SkipBlock). ok (by_block_key s.daa_score s.block_hash, join s.tx_ids)) l
unfolding prune_entry
map-prune_entry [] h = refl
map-prune_entry (s ∷ l) h = rw (new-join s.tx_ids h.0.1, map-prune_entry l h.1) refl

All-retain :
    (p : SkipBlock → Bool) (l : List SkipBlock) → All IsSkipBlock l → All IsSkipBlock (retain p l)
All-retain p [] h = tt
All-retain p (s ∷ l) h = elim (Bool-cases (p s)) [
  | inl e ↦ rw e (h.0, All-retain p l h.1)
  | inr e ↦ rw e (All-retain p l h.1)
]

scores : (l : List SkipBlock) → All IsSkipBlock l → All (λ (s : SkipBlock). s.daa_score < 256 ^ 8) l
scores [] h = tt
scores (s ∷ l) h = (h.0.0, scores l h.1)

module _ (db : Fjall) where
  open db use {Tree, iter}

  -- A partition that holds a list of blocks' skips gives the pruner exactly the blocks with a
  -- score strictly below the threshold, in the order of the partition, each with its own ids.
  pub get_entries_to_prune-exact :
      (t : Tree) (threshold : ℕ) (l : List SkipBlock)
      → threshold < 256 ^ 8
      → All IsSkipBlock l
      → iter t ≡ map skip_entry l
      → get_entries_to_prune db t (to_be_bytes 8 threshold)
        ≡ map
            (λ (s : SkipBlock). ok (by_block_key s.daa_score s.block_hash, join s.tx_ids))
            (retain (λ (s : SkipBlock). ltb s.daa_score threshold) l)
  unfolding get_entries_to_prune by_block_key
  get_entries_to_prune-exact t threshold l h all content =
      rw
        (range_to-scored (λ (s : SkipBlock). s.daa_score) (λ (s : SkipBlock). s.block_hash)
          (λ (s : SkipBlock). join s.tx_ids) db t threshold l h (scores l all) content)
        (map-prune_entry (retain (λ (s : SkipBlock). ltb s.daa_score threshold) l)
          (All-retain (λ (s : SkipBlock). ltb s.daa_score threshold) l all))
