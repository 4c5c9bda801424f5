-- ===== src/Store.antt =====
-- The interface of the embedded key-value store (fjall, a dependency): a partition as a transaction
-- sees it. The fields that end in a law state what fjall documents: a partition is a map from byte
-- strings to byte strings, iterated in lexicographic key order, with prefix and range scans, and
-- with `fetch_update`, which replaces or removes the value under a key and returns the old one.
pub mod Memory
pub mod Scan
pub mod Update
pub mod Single
pub mod Ordered
use local_rusty_indexer_poc.Prelude.{
  ◌≡◌, Bool, true, Option, none, some, List, [], ◌∷◌, retain, All, not, if◌then◌else◌,
}
use local_rusty_indexer_poc.Bytes.{Bytes, ◌=ᵇ◌, strip_prefix}
use local_rusty_indexer_poc.Bytes.Endian.{lex_ltb}

abbrev pub Entry : Type 0
Entry = Bytes × Bytes

unfoldable pub starts_with : Bytes → Bytes → Bool
starts_with p k = elim (strip_prefix p k) [ none ↦ Bool.false | some _ ↦ true ]

unfoldable pub lookup : Bytes → List Entry → Option Bytes
lookup k [] = none
lookup k ((j, v) ∷ l) = if j =ᵇ k then some v else lookup k l

-- keys strictly ascending
abbrev pub IsSorted : List Entry → Type 0
IsSorted [] = Unit {0}
IsSorted ((k, v) ∷ l) = All (λ (e : Entry). lex_ltb k e.0 ≡ true) l × IsSorted l

pub record Fjall : Type 1 where
  pub Tree : Type 0
  pub get : Tree → Bytes → Option Bytes
  pub insert : Tree → Bytes → Bytes → Tree
  pub remove : Tree → Bytes → Tree
  pub iter : Tree → List Entry
  pub prefix : Tree → Bytes → List Entry
  -- `range(..k)` and `range(k..)`
  pub range_to : Tree → Bytes → List Entry
  pub range_from : Tree → Bytes → List Entry
  pub fetch_update : Tree → Bytes → (Option Bytes → Option Bytes) → Option Bytes × Tree
  pub get-insert :
      (t : Tree) (k v j : Bytes) → get (insert t k v) j ≡ (if k =ᵇ j then some v else get t j)
  pub get-remove :
      (t : Tree) (k j : Bytes) → get (remove t k) j ≡ (if k =ᵇ j then none else get t j)
  pub lookup-iter : (t : Tree) (k : Bytes) → lookup k (iter t) ≡ get t k
  pub iter-IsSorted : (t : Tree) → IsSorted (iter t)
  pub prefix_lem : (t : Tree) (p : Bytes) → prefix t p ≡ retain (λ e. starts_with p e.0) (iter t)
  pub range_to_lem : (t : Tree) (k : Bytes) → range_to t k ≡ retain (λ e. lex_ltb e.0 k) (iter t)
  pub range_from_lem :
      (t : Tree) (k : Bytes) → range_from t k ≡ retain (λ e. not (lex_ltb e.0 k)) (iter t)
  pub fetch_update_lem :
      (t : Tree) (k : Bytes) (f : Option Bytes → Option Bytes)
      → fetch_update t k f
        ≡ (get t k, elim (f (get t k)) [ none ↦ remove t k | some v ↦ insert t k v ])
