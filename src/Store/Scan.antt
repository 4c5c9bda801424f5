-- ===== src/Store/Scan.antt =====
-- Removing the keys that a scan found.
use local_rusty_indexer_poc.Prelude.{
  ◌≡◌, refl, Bool, true, false, ◌&&◌, ◌||◌, Option, none, some, List, [], ◌∷◌, map, retain, arith,
  ap, if◌then◌else◌, Bool-cases, inl, inr,
}
use local_rusty_indexer_poc.Bytes.{Bytes, ◌=ᵇ◌, =ᵇ_iff}
use local_rusty_indexer_poc.Store.{Fjall, Entry, lookup, starts_with}

abbrev pub mem : Bytes → List Bytes → Bool
mem j [] = false
mem j (k ∷ ks) = k =ᵇ j || mem j ks

abbrev pub keys : List Entry → List Bytes
keys l = map (λ (e : Entry). e.0) l

abbrev pub is_some {ℓ} : {A : Type ℓ} → Option A → Bool
is_some none = false
is_some (some _) = true

-- A key is among those that a scan by keys found exactly when the scan takes it and it is there.
pub mem-retain :
    (f : Bytes → Bool) (j : Bytes) (l : List Entry)
    → mem j (keys (retain (λ e. f e.0) l)) ≡ (f j && is_some (lookup j l))
unfolding lookup
mem-retain f j [] = ground arith
mem-retain f j ((k, v) ∷ l) = elim (Bool-cases (k =ᵇ j)) [
  | inl e ↦ rw (ap f ((=ᵇ_iff k j).0 e), e) (ground (arith, mem-retain f j l))
  | inr e ↦ rw e (ground (arith, mem-retain f j l))
]

module _ (db : Fjall) where
  open db use {Tree, get, remove, prefix, get-remove, lookup-iter, iter, prefix_lem}

  unfoldable pub remove_all : Tree → List Bytes → Tree
  remove_all t [] = t
  remove_all t (k ∷ ks) = remove_all (remove t k) ks

  pub get-remove_all :
      (t : Tree) (ks : List Bytes) (j : Bytes)
      → get (remove_all t ks) j ≡ (if mem j ks then none else get t j)
  unfolding remove_all
  get-remove_all t [] j = refl
  get-remove_all t (k ∷ ks) j =
      rw (get-remove_all (remove t k) ks j, get-remove t k j) (ground arith)

  -- Removing every key that a prefix scan found leaves exactly the keys without that prefix.
  pub get-remove_all-prefix :
      (t : Tree) (p j : Bytes)
      → get (remove_all t (keys (prefix t p))) j ≡ (if starts_with p j then none else get t j)
  get-remove_all-prefix t p j =
      rw
        (
          get-remove_all t (keys (prefix t p)) j,
          prefix_lem t p,
          mem-retain (starts_with p) j (iter t),
          lookup-iter t j,
        )
        (ground arith)
