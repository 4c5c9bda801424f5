-- ===== src/Processing/Retries.antt =====
-- How often the resolution of an unknown score is tried.
use local_rusty_indexer_poc.Prelude.{
  ℕ, zero, suc, ◌-◌, ◌%◌, ◌<◌, ◌≡◌, refl, ◌∙◌, ap, subst, Bool, true, false, Option, inl, inr,
  Bool-cases, none, some, ◌∷◌, length, leb, arith, if◌then◌else◌, Result, ok, ◌>>=◌,
}
use local_rusty_indexer_poc.Bytes.{Bytes, ◌=ᵇ◌, =ᵇ_iff}
use local_rusty_indexer_poc.Store.{Fjall}
use local_rusty_indexer_poc.Store.Update.{get-fetch_update, get-fetch_update_same}
use local_rusty_indexer_poc.Processing.UnknownDaa.{
  entry_size, entries_from, entries_attempt_count, to_mutable, decrement_attempt_count, with_data,
  decremented_entries, decrement_attempt_counts_by_block_hash,
}

-- a stored vector: its count and its entries
decremented_entries-vector :
    (n : ℕ) (b : Bytes)
    → length b % entry_size ≡ 0
    → decremented_entries (n ∷ b) ≡ ok (if leb n 1 then none else some ((n - 1) ∷ b))
unfolding decremented_entries entries_from entries_attempt_count to_mutable decrement_attempt_count
    with_data
decremented_entries-vector n b h = ground (arith, h)

answer :
    {T : Type 0} (n : ℕ) (b : Bytes) (f : Option Bytes → T)
    → ◌≡◌ {A = Result (Bool × T)}
        (ok (
          elim (if leb n 1 then none else some ((n - 1) ∷ b)) [ none ↦ true | some _ ↦ false ],
          f (if leb n 1 then none else some ((n - 1) ∷ b)),
        ))
        (ok (leb n 1, f (if leb n 1 then none else some ((n - 1) ∷ b))))
answer n b f = elim (Bool-cases (leb n 1)) [ inl e ↦ rw e refl | inr e ↦ rw e refl ]

module _ (db : Fjall) where
  open db use {Tree, get, fetch_update}

  pub decrement_once :
      (t : Tree) (hash : Bytes) (n : ℕ) (b : Bytes)
      → length b % entry_size ≡ 0
      → get t hash ≡ some (n ∷ b)
      → (t' : Tree) × (decrement_attempt_counts_by_block_hash db t hash ≡ ok (leb n 1, t'))
        × (get t' hash ≡ (if leb n 1 then none else some ((n - 1) ∷ b)))
        × ((j : Bytes) → (hash =ᵇ j) ≡ Bool.false → get t' j ≡ get t j)
  unfolding decrement_attempt_counts_by_block_hash
  decrement_once t hash n b whole h =
      let new = if leb n 1 then none else some ((n - 1) ∷ b) in
      (
        (fetch_update t hash (λ _. new)).1,
        rw (decrement_attempt_counts_by_block_hash, h, decremented_entries-vector n b whole)
            (answer n b (λ value. (fetch_update t hash (λ _. value)).1)),
        get-fetch_update_same db t hash (λ _. new),
        λ j e. rw (get-fetch_update db t hash (λ _. new) j, e) refl,
      )

  -- `attempts` failed resolutions in turn
  abbrev pub fail_times : ℕ → Bytes → Tree → Result Tree
  fail_times zero hash t = ok t
  fail_times (suc attempts) hash t = do
    (_, t') ← decrement_attempt_counts_by_block_hash db t hash
    fail_times attempts hash t'

  fail_times-step :
      (k n : ℕ) (t : Tree) (hash : Bytes) (b : Bytes)
      → length b % entry_size ≡ 0
      → k < n
      → get t hash ≡ some (n ∷ b)
      → (t' : Tree) × (fail_times k hash t ≡ ok t')
        × (get t' hash ≡ some ((n - k) ∷ b))
        × ((j : Bytes) → (hash =ᵇ j) ≡ false → get t' j ≡ get t j)
  fail_times-step zero n t hash b whole less h =
      (t, refl, h ∙ ap (λ m. some (m ∷ b)) (omega arith), λ j e. refl)
  fail_times-step (suc k) n t hash b whole less h =
      let (t', ran, now, others) = decrement_once t hash n b whole h in
      let more : leb n 1 ≡ false = ground arith in
      let (t'', later, last, others') =
        fail_times-step k (n - 1) t' hash b whole (omega arith) (rw more at now) in
      (
        t'',
        rw ran later,
        last ∙ ap (λ m. some (m ∷ b)) (omega arith),
        λ j e. others' j e ∙ others j e,
      )

  -- A block that waits for its score with `n` attempts keeps its entries, with `n - k` attempts
  -- left, through `k < n` failed resolutions, and no other block's entry changes.
  pub fail_times-kept :
      (k n : ℕ) (t : Tree) (hash : Bytes) (b : Bytes)
      → length b % entry_size ≡ 0
      → k < n
      → get t hash ≡ some (n ∷ b)
      → (t' : Tree) × (fail_times k hash t ≡ ok t')
        × ((j : Bytes) → get t' j ≡ (if hash =ᵇ j then some ((n - k) ∷ b) else get t j))
  fail_times-kept k n t hash b whole less h =
      let (t', ran, last, others) = fail_times-step k n t hash b whole less h in
      (
        t',
        ran,
        λ j. elim (Bool-cases (hash =ᵇ j)) [
          | inl e ↦ rw e (subst (λ i. get t' i ≡ some ((n - k) ∷ b)) ((=ᵇ_iff hash j).0 e) last)
          | inr e ↦ rw e (others j e)
        ],
      )

  -- The last of `n ≥ 1` failed resolutions gives up: the entry is gone, and the answer of that
  -- call says so.
  pub fail_times-removed :
      (n : ℕ) (t : Tree) (hash : Bytes) (b : Bytes)
      → length b % entry_size ≡ 0
      → get t hash ≡ some (suc n ∷ b)
      → (t' : Tree) × (t'' : Tree) × (fail_times n hash t ≡ ok t')
        × (decrement_attempt_counts_by_block_hash db t' hash ≡ ok (true, t''))
        × (get t'' hash ≡ none)
  fail_times-removed n t hash b whole h =
      let (t', ran, left, _) = fail_times-step n (suc n) t hash b whole (omega arith) h in
      let (t'', last, gone, _) = decrement_once t' hash (suc n - n) b whole left in
      let one : leb (suc n - n) 1 ≡ true = ground arith in
      (t', t'', ran, rw one at last, rw one at gone)
