-- ===== src/Store/Single.antt =====
-- A scan that finds one entry, for every store.
use local_rusty_indexer_poc.Prelude.{
  ◌≡◌, refl, sym, ap, ◌∙◌, Bool, true, false, Option, none, some, List, [], ◌∷◌, retain, All, arith,
  ◌&&◌, Bool-cases, inl, inr,
}
use local_rusty_indexer_poc.Bytes.{Bytes, ◌=ᵇ◌, =ᵇ_iff}
use local_rusty_indexer_poc.Bytes.Endian.{lex_ltb}
use local_rusty_indexer_poc.Bytes.Order.{lex_ne'}
use local_rusty_indexer_poc.Store.{Fjall, Entry, lookup, starts_with, IsSorted}
use local_rusty_indexer_poc.Store.Scan.{mem, keys, is_some, mem-retain}
use local_rusty_indexer_poc.Store.Update.{retain-none}

-- the first key of a sorted list is not met again
lookup_below :
    (k : Bytes) (l : List Entry) → All (λ (e : Entry). lex_ltb k e.0 ≡ true) l → lookup k l ≡ none
unfolding lookup
lookup_below k [] h = refl
lookup_below k ((j, v) ∷ l) h = rw (lex_ne' k j h.0) (lookup_below k l h.1)

-- in a list that goes on, another key is looked up in the rest
lookup_skip : (k j v : Bytes) (l : List Entry) → k =ᵇ j ≡ false → lookup j ((k, v) ∷ l) ≡ lookup j l
unfolding lookup
lookup_skip k j v l h = rw h refl

lookup_hit : (k v : Bytes) (l : List Entry) → lookup k ((k, v) ∷ l) ≡ some v
unfolding lookup
lookup_hit k v l = rw ((=ᵇ_iff k k).1 refl) refl

retain_single :
    (f : Bytes → Bool) (k v : Bytes) (l : List Entry)
    → IsSorted l
    → f k ≡ true
    → lookup k l ≡ some v
    → ((j : Bytes) → f j ≡ true → k =ᵇ j ≡ false → lookup j l ≡ none)
    → retain (λ e. f e.0) l ≡ (k, v) ∷ []
retain_single f k v [] sorted fk here others = absurd (unfold lookup in cc)
retain_single f k v ((i, w) ∷ l) sorted fk here others = elim (Bool-cases (i =ᵇ k)) [
  | inl e ↦ at_head ((=ᵇ_iff i k).0 e)
  | inr e ↦ elim (Bool-cases (f i)) [
    | inl taken ↦ absurd (ground (arith, others i taken (apart e), lookup_hit i w l))
    | inr passed ↦ rw passed (
        retain_single f k v l sorted.1 fk (sym (lookup_skip i k w l e) ∙ here) (λ j p other.
          elim (Bool-cases (i =ᵇ j)) [
            | inl same ↦ absurd (ground (arith, ap f ((=ᵇ_iff i j).0 same)))
            | inr apart_ ↦ sym (lookup_skip i j w l apart_) ∙ others j p other
          ]))
  ]
]
  where
    apart : i =ᵇ k ≡ false → k =ᵇ i ≡ false
    apart e = elim (Bool-cases (k =ᵇ i)) [
      | inl same ↦ absurd (ground (arith, (=ᵇ_iff i k).1 (sym ((=ᵇ_iff k i).0 same))))
      | inr other ↦ other
    ]

    at_head : i ≡ k → retain (λ e. f e.0) ((i, w) ∷ l) ≡ (k, v) ∷ []
    at_head e =
        let value : some w ≡ some v = sym (lookup_hit k w l) ∙ (rw e at here) in
        rw (e, fk)
          (let rest = retain-none f l (λ j p. elim (Bool-cases (k =ᵇ j)) [
            | inl same ↦ rw (sym ((=ᵇ_iff k j).0 same)) (lookup_below k l (rw e at sorted.0))
            | inr other ↦ sym (lookup_skip k j w l other) ∙ rw e at (others j p other)
          ]) in
            rw rest (ground (arith, value)))

is_some-none : {A : Type 0} (o : Option A) → false ≡ is_some o → o ≡ none
is_some-none none h = refl
is_some-none (some a) h = absurd cc

module _ (db : Fjall) where
  open db use {Tree, get, iter, prefix, lookup-iter, prefix_lem, iter-IsSorted}

  pub prefix_single :
      (t : Tree) (p k v : Bytes)
      → starts_with p k ≡ true
      → get t k ≡ some v
      → ((j : Bytes) → starts_with p j ≡ true → k =ᵇ j ≡ false → get t j ≡ none)
      → prefix t p ≡ (k, v) ∷ []
  prefix_single t p k v starts here others =
      prefix_lem t p
      ∙ retain_single (starts_with p) k v (iter t) (iter-IsSorted t) starts (lookup-iter t k ∙ here)
          (λ j s other. lookup-iter t j ∙ others j s other)

  -- a key that a scan does not find is not there
  pub prefix_free :
      (t : Tree) (p : Bytes)
      → prefix t p ≡ []
      → (j : Bytes) → starts_with p j ≡ true
      → get t j ≡ none
  prefix_free t p none_found j s =
      let found : mem j (keys (prefix t p)) ≡ (starts_with p j && is_some (get t j)) =
        rw (prefix_lem t p, mem-retain (starts_with p) j (iter t), lookup-iter t j) refl in
      is_some-none (get t j) (rw (none_found, s) at found)
