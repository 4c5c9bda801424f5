-- ===== src/Periodic/Pruned.antt =====
-- What the prunings leave.
use local_rusty_indexer_poc.Prelude.{
  ℕ, ◌-◌, ◌≡◌, refl, ◌<◌, ◌^◌, Bool, false, none, List, [], ◌∷◌, ◌++◌, map, retain, All, length,
  ltb, if◌then◌else◌, ok, for_each_ok, arith, Bool-cases, inl, inr, length-append,
}
use local_rusty_indexer_poc.Bytes.{Bytes}
use local_rusty_indexer_poc.Bytes.Endian.{to_be_bytes, length-to_be_bytes}
use local_rusty_indexer_poc.Store.{Fjall}
use local_rusty_indexer_poc.Store.Scan.{mem, remove_all, get-remove_all}
use local_rusty_indexer_poc.Keyspace.{Keyspace, commit}
use local_rusty_indexer_poc.Keys.Layout.{join}
use local_rusty_indexer_poc.Headers.Compact.{remove_header}
use local_rusty_indexer_poc.Headers.DaaIndex.{make_key, delete}
use local_rusty_indexer_poc.Headers.Lookup.{index_entry, IsPosition, iter_lt-exact}
use local_rusty_indexer_poc.Processing.Skip.{remove_skip, remove_by_raw_key, by_block_key}
use local_rusty_indexer_poc.Processing.TxIds.{as_tx_ids-join}
use local_rusty_indexer_poc.Processing.Pruning.{
  SkipBlock, skip_entry, IsSkipBlock, get_entries_to_prune-exact,
}
use local_rusty_indexer_poc.Periodic.{
  threshold, prune_header, prune_block_headers, remove_skips, prune_skips, prune_skip_transactions,
}

-- the positions more than three times the pruning depth below the virtual score
abbrev pub expired : ℕ → List (ℕ × Bytes) → List (ℕ × Bytes)
expired virtual_daa l = retain (λ (p : ℕ × Bytes). ltb p.0 (virtual_daa - 3240000)) l

abbrev pub hashes : List (ℕ × Bytes) → List Bytes
hashes l = map (λ (p : ℕ × Bytes). p.1) l

abbrev pub index_keys : List (ℕ × Bytes) → List Bytes
index_keys l = map (λ (p : ℕ × Bytes). make_key p.0 p.1) l

module _ (db : Fjall) where
  open db use {Tree, get, iter}

  for_each_ok-prune_header :
      (l : List (ℕ × Bytes)) (headers index : Tree)
      → for_each_ok (prune_header db) (map ok l) (headers, index)
        ≡ ok (remove_all db headers (hashes l), remove_all db index (index_keys l))
  unfolding for_each_ok prune_header remove_all remove_header delete
  for_each_ok-prune_header [] headers index = refl
  for_each_ok-prune_header ((daa, hash) ∷ l) headers index =
      for_each_ok-prune_header l (db.remove headers hash) (db.remove index (make_key daa hash))

  -- With a virtual score of 64 bits and an index of well-formed positions, the pruning of headers
  -- succeeds, and removes exactly the headers of the positions with a score below the threshold,
  -- 3240000 below the virtual score, or 0, and exactly their index entries.
  pub prune_block_headers-exact :
      (virtual_daa : ℕ) (headers index : Tree) (l : List (ℕ × Bytes))
      → virtual_daa < 256 ^ 8
      → All (IsPosition db) l
      → iter index ≡ map (index_entry db) l
      → (headers' : Tree) × (index' : Tree) × (prune_block_headers db virtual_daa (headers, index)
          ≡ ok (headers', index'))
        × ((j : Bytes)
            → get headers' j
              ≡ (if mem j (hashes (expired virtual_daa l)) then none else get headers j))
        × ((j : Bytes)
            → get index' j
              ≡ (if mem j (index_keys (expired virtual_daa l)) then none else get index j))
  unfolding prune_block_headers
  prune_block_headers-exact virtual_daa headers index l h all content =
      let gone = expired virtual_daa l in
      (
        remove_all db headers (hashes gone),
        remove_all db index (index_keys gone),
        rw (iter_lt-exact db index (threshold virtual_daa) l (omega arith) all content)
            (for_each_ok-prune_header gone headers index),
        get-remove_all db headers (hashes gone),
        get-remove_all db index (index_keys gone),
      )

abbrev pub expired_blocks : ℕ → List SkipBlock → List SkipBlock
expired_blocks virtual_daa l = retain (λ (s : SkipBlock). ltb s.daa_score (virtual_daa - 3240000)) l

abbrev pub block_keys : List SkipBlock → List Bytes
block_keys l = map (λ (s : SkipBlock). by_block_key s.daa_score s.block_hash) l

abbrev pub skipped_ids : List SkipBlock → List Bytes
skipped_ids [] = []
skipped_ids (s ∷ l) = s.tx_ids ++ skipped_ids l

-- a block's skips with a hash of the right length
abbrev pub IsHashed : SkipBlock → Type 0
IsHashed s = IsSkipBlock s × (length s.block_hash ≡ 32)

All-IsSkipBlock : (l : List SkipBlock) → All IsHashed l → All IsSkipBlock l
All-IsSkipBlock [] h = tt
All-IsSkipBlock (s ∷ l) h = (h.0.0, All-IsSkipBlock l h.1)

All-expired :
    (q : SkipBlock → Bool) (l : List SkipBlock) → All IsHashed l → All IsHashed (retain q l)
All-expired q [] h = tt
All-expired q (s ∷ l) h = elim (Bool-cases (q s)) [
  | inl e ↦ rw e (h.0, All-expired q l h.1)
  | inr e ↦ rw e (All-expired q l h.1)
]

length-by_block_key :
    (s : SkipBlock) → length s.block_hash ≡ 32 → length (by_block_key s.daa_score s.block_hash) ≡ 40
unfolding by_block_key
length-by_block_key s h = omega (
  arith,
  length-append (to_be_bytes 8 s.daa_score) s.block_hash,
  length-to_be_bytes 8 s.daa_score,
  h,
)

module _ (db : Fjall) where
  open db use {Tree, get, iter}

  remove_skips-remove_all :
      (t : Tree) (ids : List Bytes) → remove_skips db t ids ≡ remove_all db t ids
  unfolding remove_skips remove_all remove_skip
  remove_skips-remove_all t [] = refl
  remove_skips-remove_all t (id ∷ ids) = remove_skips-remove_all (db.remove t id) ids

  remove_all-append :
      (t : Tree) (xs ys : List Bytes)
      → remove_all db t (xs ++ ys) ≡ remove_all db (remove_all db t xs) ys
  unfolding remove_all
  remove_all-append t [] ys = refl
  remove_all-append t (x ∷ xs) ys = remove_all-append (db.remove t x) xs ys

  prune_skips-block :
      (s : SkipBlock) (skip_tx by_block : Tree)
      → IsHashed s
      → prune_skips db (by_block_key s.daa_score s.block_hash, join s.tx_ids) (skip_tx, by_block)
        ≡ ok (
          remove_all db skip_tx s.tx_ids,
          db.remove by_block (by_block_key s.daa_score s.block_hash),
        )
  unfolding prune_skips remove_by_raw_key
  prune_skips-block s skip_tx by_block h =
      rw
        (
          length-by_block_key s h.1,
          as_tx_ids-join s.tx_ids h.0.1,
          remove_skips-remove_all skip_tx s.tx_ids,
        )
        refl

  for_each_ok-prune_skips :
      (l : List SkipBlock) (skip_tx by_block : Tree)
      → All IsHashed l
      → for_each_ok
          (prune_skips db)
          (map (λ (s : SkipBlock). ok (by_block_key s.daa_score s.block_hash, join s.tx_ids)) l)
          (skip_tx, by_block)
        ≡ ok (remove_all db skip_tx (skipped_ids l), remove_all db by_block (block_keys l))
  unfolding for_each_ok remove_all
  for_each_ok-prune_skips [] skip_tx by_block h = refl
  for_each_ok-prune_skips (s ∷ l) skip_tx by_block h =
      rw
        (
          prune_skips-block s skip_tx by_block h.0,
          remove_all-append skip_tx s.tx_ids (skipped_ids l),
        )
        (for_each_ok-prune_skips l (remove_all db skip_tx s.tx_ids)
          (db.remove by_block (by_block_key s.daa_score s.block_hash)) h.1)

  -- With a virtual score of 64 bits and a partition that holds a list of blocks' skips, each with a
  -- score of 64 bits, a block hash of 32 bytes and ids of 32 bytes, the pruning of skips succeeds
  -- when its commit meets no conflict, unmarks exactly the ids of the blocks with a score below the
  -- threshold, 3240000 below the virtual score, or 0, and removes exactly those blocks' entries.
  pub prune_skip_transactions-exact :
      (virtual_daa : ℕ) (ks : Keyspace db) (l : List SkipBlock)
      → virtual_daa < 256 ^ 8
      → All IsHashed l
      → iter ks.skip_tx_by_block ≡ map skip_entry l
      → (ks' : Keyspace db) × (prune_skip_transactions db virtual_daa false ks ≡ ok ks')
        × ((j : Bytes)
            → get ks'.skip_tx j ≡ (
                if mem j (skipped_ids (expired_blocks virtual_daa l))
                then none
                else get ks.skip_tx j))
        × ((j : Bytes)
            → get ks'.skip_tx_by_block j ≡ (
                if mem j (block_keys (expired_blocks virtual_daa l))
                then none
                else get ks.skip_tx_by_block j))
  unfolding prune_skip_transactions commit
  prune_skip_transactions-exact virtual_daa ks l h all content =
      let gone = expired_blocks virtual_daa l in
      (
        record ks {
          skip_tx = remove_all db ks.skip_tx (skipped_ids gone);
          skip_tx_by_block = remove_all db ks.skip_tx_by_block (block_keys gone);
        },
        rw
            (
              get_entries_to_prune-exact db ks.skip_tx_by_block (threshold virtual_daa) l
                  (omega arith) (All-IsSkipBlock l all) content,
              for_each_ok-prune_skips gone ks.skip_tx ks.skip_tx_by_block
                  (All-expired (λ (s : SkipBlock). ltb s.daa_score (threshold virtual_daa)) l all),
            )
            refl,
        get-remove_all db ks.skip_tx (skipped_ids gone),
        get-remove_all db ks.skip_tx_by_block (block_keys gone),
      )
