-- ===== src/Store/Update.antt =====
-- What `fetch_update` and the scans leave behind, for every store.
use local_rusty_indexer_poc.Prelude.{
  ◌≡◌, refl, ◌∙◌, Bool, true, Option, none, some, List, [], ◌∷◌, retain, arith, ap, if◌then◌else◌,
  Bool-cases, inl, inr,
}
use local_rusty_indexer_poc.Bytes.{Bytes, ◌=ᵇ◌, =ᵇ_iff}
use local_rusty_indexer_poc.Store.{Fjall, Entry, lookup, starts_with}

-- A scan finds nothing when no key that it takes is there.
pub retain-none :
    (f : Bytes → Bool) (l : List Entry)
    → ((j : Bytes) → f j ≡ true → lookup j l ≡ none)
    → retain (λ e. f e.0) l ≡ []
unfolding lookup
retain-none f [] h = refl
retain-none f ((k, v) ∷ l) h = elim (Bool-cases (f k)) [
  | inl e ↦ absurd (ground (arith, h k e, (=ᵇ_iff k k).1 refl))
  | inr e ↦ rw e (
      retain-none f l (λ j p. elim (Bool-cases (k =ᵇ j)) [
        | inl same ↦ absurd (ground (arith, ap f ((=ᵇ_iff k j).0 same)))
        | inr other ↦ rw other at (h j p)
      ]))
]

module _ (db : Fjall) where
  open db use {
    Tree, get, insert, remove, iter, prefix, fetch_update, fetch_update_lem, get-insert, get-remove,
    lookup-iter, prefix_lem,
  }

  pub get-fetch_update :
      (t : Tree) (k : Bytes) (f : Option Bytes → Option Bytes) (j : Bytes)
      → get (fetch_update t k f).1 j ≡ (if k =ᵇ j then f (get t k) else get t j)
  get-fetch_update t k f j = rw (fetch_update_lem t k f) (written (f (get t k)))
    where
      written :
          (o : Option Bytes)
          → get (elim o [ none ↦ remove t k | some v ↦ insert t k v ]) j
            ≡ (if k =ᵇ j then o else get t j)
      written none = get-remove t k j
      written (some v) = get-insert t k v j

  pub fetch_update-old :
      (t : Tree) (k : Bytes) (f : Option Bytes → Option Bytes) → (fetch_update t k f).0 ≡ get t k
  fetch_update-old t k f = rw (fetch_update_lem t k f) refl

  pub get-insert_same : (t : Tree) (k v : Bytes) → get (insert t k v) k ≡ some v
  get-insert_same t k v = rw (get-insert t k v k, (=ᵇ_iff k k).1 refl) refl

  pub get-fetch_update_same :
      (t : Tree) (k : Bytes) (f : Option Bytes → Option Bytes)
      → get (fetch_update t k f).1 k ≡ f (get t k)
  get-fetch_update_same t k f = rw (get-fetch_update t k f k, (=ᵇ_iff k k).1 refl) refl

  pub prefix_none :
      (t : Tree) (p : Bytes)
      → ((j : Bytes) → starts_with p j ≡ true → get t j ≡ none)
      → prefix t p ≡ []
  prefix_none t p h =
      prefix_lem t p ∙ retain-none (starts_with p) (iter t) (λ j e. lookup-iter t j ∙ h j e)
