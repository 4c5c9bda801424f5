-- ===== src/Store/Memory.antt =====
-- A store held in memory as a sorted association list: the interface can be met.
use local_rusty_indexer_poc.Prelude.{
  ◌≡◌, refl, true, none, some, List, [], ◌∷◌, retain, All, not, if◌then◌else◌, arith, inl, inr,
  Bool-cases,
}
use local_rusty_indexer_poc.Bytes.{Bytes, ◌=ᵇ◌, =ᵇ_iff}
use local_rusty_indexer_poc.Bytes.Endian.{lex_ltb}
use local_rusty_indexer_poc.Bytes.Order.{lex_trans, lex_total, lex_ne, lex_ne', lex_asym}
use local_rusty_indexer_poc.Store.{Entry, starts_with, lookup, IsSorted, Fjall}

unfoldable pub put : Bytes → Bytes → List Entry → List Entry
put k v [] = (k, v) ∷ []
put k v ((j, w) ∷ l) =
    if k =ᵇ j then (k, v) ∷ l else if lex_ltb k j then (k, v) ∷ (j, w) ∷ l else (j, w) ∷ put k v l

unfoldable pub without : Bytes → List Entry → List Entry
without k [] = []
without k ((j, w) ∷ l) = let rest = without k l in if j =ᵇ k then rest else (j, w) ∷ rest

pub lookup-put :
    (k v j : Bytes) (l : List Entry)
    → lookup j (put k v l) ≡ (if k =ᵇ j then some v else lookup j l)
unfolding lookup put
lookup-put k v j [] = refl
lookup-put k v j ((i, w) ∷ l) =
    ground (arith, lookup-put k v j l, =ᵇ_iff k i, =ᵇ_iff k j, =ᵇ_iff i j)

pub lookup-without :
    (k j : Bytes) (l : List Entry) → lookup j (without k l) ≡ (if k =ᵇ j then none else lookup j l)
unfolding lookup without
lookup-without k j [] = ground arith
lookup-without k j ((i, w) ∷ l) =
    ground (arith, lookup-without k j l, =ᵇ_iff i k, =ᵇ_iff i j, =ᵇ_iff k j)

abbrev Above : Bytes → Entry → Type 0
Above k e = lex_ltb k e.0 ≡ true

All-put :
    (b k v : Bytes) (l : List Entry)
    → lex_ltb b k ≡ true
    → All (Above b) l
    → All (Above b) (put k v l)
unfolding put
All-put b k v [] h a = (h, tt)
All-put b k v ((j, w) ∷ l) h a = ground (arith, All-put b k v l h a.1)

All-trans : (b k : Bytes) (l : List Entry) → lex_ltb b k ≡ true → All (Above k) l → All (Above b) l
All-trans b k [] h a = tt
All-trans b k ((j, w) ∷ l) h a = (lex_trans b k j h a.0, All-trans b k l h a.1)

pub put-IsSorted : (k v : Bytes) (l : List Entry) → IsSorted l → IsSorted (put k v l)
unfolding put
put-IsSorted k v [] s = (tt, tt)
put-IsSorted k v ((j, w) ∷ l) s = elim (lex_total k j) [
  | inl less ↦ rw (lex_ne k j less, less) ((less, All-trans k j l less s.0), s)
  | inr (inl same) ↦ rw (same, (=ᵇ_iff j j).1 refl) (s.0, s.1)
  | inr (inr more) ↦
      rw (lex_ne' j k more, lex_asym j k more) (All-put j k v l more s.0, put-IsSorted k v l s.1)
]

All-without : (P : Entry → Type 0) (k : Bytes) (l : List Entry) → All P l → All P (without k l)
unfolding without
All-without P k [] a = tt
All-without P k ((j, w) ∷ l) a = elim (Bool-cases (j =ᵇ k)) [
  | inl e ↦ rw e (All-without P k l a.1)
  | inr e ↦ rw e (a.0, All-without P k l a.1)
]

pub without-IsSorted : (k : Bytes) (l : List Entry) → IsSorted l → IsSorted (without k l)
unfolding without
without-IsSorted k [] s = tt
without-IsSorted k ((j, w) ∷ l) s = elim (Bool-cases (j =ᵇ k)) [
  | inl e ↦ rw e (without-IsSorted k l s.1)
  | inr e ↦ rw e (All-without (Above j) k l s.0, without-IsSorted k l s.1)
]

pub record Table : Type 0 where
  pub entries : List Entry
  pub sorted : IsSorted entries

abbrev pub table_insert : Table → Bytes → Bytes → Table
table_insert t k v = record {
  entries = put k v t.entries;
  sorted = put-IsSorted k v t.entries t.sorted;
}

abbrev pub table_remove : Table → Bytes → Table
table_remove t k = record {
  entries = without k t.entries;
  sorted = without-IsSorted k t.entries t.sorted;
}

abbrev pub empty : Table
empty = record { entries = []; sorted = tt }

unfoldable pub memory : Fjall
unfolding put without lookup
memory = record {
  Tree = Table;
  get = λ t k. lookup k t.entries;
  insert = table_insert;
  remove = table_remove;
  iter = λ t. t.entries;
  prefix = λ t p. retain (λ e. starts_with p e.0) t.entries;
  range_to = λ t k. retain (λ e. lex_ltb e.0 k) t.entries;
  range_from = λ t k. retain (λ e. not (lex_ltb e.0 k)) t.entries;
  fetch_update = λ t k f. (
    lookup k t.entries,
    elim (f (lookup k t.entries)) [ none ↦ table_remove t k | some v ↦ table_insert t k v ],
  );
  get-insert = λ t k v j. lookup-put k v j t.entries;
  get-remove = λ t k j. lookup-without k j t.entries;
  lookup-iter = λ t k. refl;
  iter-IsSorted = λ t. t.sorted;
  prefix_lem = λ t p. refl;
  range_to_lem = λ t k. refl;
  range_from_lem = λ t k. refl;
  fetch_update_lem = λ t k f. refl;
}
