-- ===== src/Intersection/Members.antt =====
-- The two pointers find what a search would.
use local_rusty_indexer_poc.Prelude.{
  ◌≡◌, refl, sym, ap, subst, ◌∙◌, Bool, true, false, ◌||◌, List, [], ◌∷◌, map, retain, All, ok,
}
use local_rusty_indexer_poc.Intersection.{Ordering, less, equal, greater, intersect}

abbrev pub flip : Ordering → Ordering
flip less = greater
flip equal = equal
flip greater = less

module _ {K : Type 0} (cmp : K → K → Ordering) where
  -- the laws of `Ord` that the iterator relies on
  pub record IsOrder : Type 0 where
    pub refl_lem : (a : K) → cmp a a ≡ equal
    pub equal_lem : (a b : K) → cmp a b ≡ equal → a ≡ b
    pub flip_lem : (a b : K) → cmp b a ≡ flip (cmp a b)
    pub trans_lem : (a b c : K) → cmp a b ≡ less → cmp b c ≡ less → cmp a c ≡ less

  abbrev is_equal : Ordering → Bool
  is_equal less = false
  is_equal equal = true
  is_equal greater = false

  abbrev pub member : K → List K → Bool
  member j [] = false
  member j (k ∷ ks) = is_equal (cmp j k) || member j ks

  -- strictly ascending
  abbrev pub Ascending : List K → Type 0
  Ascending [] = Unit {0}
  Ascending (k ∷ ks) = All (λ (j : K). cmp k j ≡ less) ks × Ascending ks

  -- a key below every key of a list is not in it
  member_none : (j : K) (ks : List K) → All (λ (k : K). cmp j k ≡ less) ks → member j ks ≡ false
  member_none j [] h = refl
  member_none j (k ∷ ks) h = rw h.0 (member_none j ks h.1)

  All-below :
      (o : IsOrder) (j k : K) (ks : List K)
      → cmp j k ≡ less
      → All (λ (i : K). cmp k i ≡ less) ks
      → All (λ (i : K). cmp j i ≡ less) ks
  All-below o j k [] h a = tt
  All-below o j k (i ∷ ks) h a = (o.trans_lem j k i h a.0, All-below o j k ks h a.1)

  All-above :
      (o : IsOrder) (j k : K) (ks : List K)
      → cmp j k ≡ greater
      → All (λ (i : K). cmp j i ≡ less) ks
      → All (λ (i : K). cmp i k ≡ greater) ks
  All-above o j k [] h a = tt
  All-above o j k (i ∷ ks) h a =
      let below : cmp k j ≡ less = o.flip_lem j k ∙ ap flip h in
      let far : cmp k i ≡ less = o.trans_lem k j i below a.0 in
      (o.flip_lem k i ∙ ap flip far, All-above o j k ks h a.1)

  All-flip :
      (o : IsOrder) (j : K) (ks : List K)
      → All (λ (i : K). cmp j i ≡ less) ks
      → All (λ (i : K). cmp i j ≡ greater) ks
  All-flip o j [] a = tt
  All-flip o j (i ∷ ks) a = (o.flip_lem j i ∙ ap flip a.0, All-flip o j ks a.1)

module _ {K V : Type 0} (cmp : K → K → Ordering) where
  abbrev pub keys_of : List (K × V) → List K
  keys_of l = map (λ (e : K × V). e.0) l

  -- a key below every searched key does not change what the search keeps
  retain_drop :
      (k : K) (ks : List K) (l : List (K × V))
      → All (λ (j : K). cmp j k ≡ greater) (keys_of l)
      → retain (λ (e : K × V). member cmp e.0 (k ∷ ks)) l
        ≡ retain (λ (e : K × V). member cmp e.0 ks) l
  retain_drop k ks [] h = refl
  retain_drop k ks ((j, v) ∷ l) h = rw (h.0, retain_drop k ks l h.1) refl

  retain_nothing : (l : List (K × V)) → retain (λ (e : K × V). member cmp e.0 []) l ≡ []
  retain_nothing [] = refl
  retain_nothing (e ∷ l) = retain_nothing l

  -- one round, given what the rest of each of its three branches gives
  intersect-round :
      (o : IsOrder cmp) (j : K) (v : V) (l : List (K × V)) (k : K) (ks : List K) (c : Ordering)
      → Ascending cmp (j ∷ keys_of l)
      → Ascending cmp (k ∷ ks)
      → cmp j k ≡ c
      → intersect cmp (map ok l) (k ∷ ks)
        ≡ map ok (retain (λ (e : K × V). member cmp e.0 (k ∷ ks)) l)
      → intersect cmp (map ok l) ks ≡ map ok (retain (λ (e : K × V). member cmp e.0 ks) l)
      → intersect cmp (map ok ((j, v) ∷ l)) ks
        ≡ map ok (retain (λ (e : K × V). member cmp e.0 ks) ((j, v) ∷ l))
      → intersect cmp (map ok ((j, v) ∷ l)) (k ∷ ks)
        ≡ map ok (retain (λ (e : K × V). member cmp e.0 (k ∷ ks)) ((j, v) ∷ l))
  unfolding intersect
  intersect-round o j v l k ks less hl hk e r_less r_equal r_greater =
      rw (e, member_none cmp j ks (All-below cmp o j k ks e hk.0)) r_less
  intersect-round o j v l k ks equal hl hk e r_less r_equal r_greater =
      let same = o.equal_lem j k e in
      let above : All (λ (i : K). cmp i k ≡ greater) (keys_of l) =
        subst (λ x. All (λ (i : K). cmp i x ≡ greater) (keys_of l)) same
          (All-flip cmp o j (keys_of l) hl.0) in
      rw e (ap (◌∷◌ (ok (j, v))) (r_equal ∙ ap (map ok) (sym (retain_drop k ks l above))))
  intersect-round o j v l k ks greater hl hk e r_less r_equal r_greater =
      rw e r_greater
      ∙ ap (map ok)
          (sym (retain_drop k ks ((j, v) ∷ l) (e, All-above cmp o j k (keys_of l) e hl.0)))

  -- On two strictly ascending inputs without errors, the iterator gives exactly the left items
  -- whose key is among the right keys, in order.
  pub intersect-retain :
      (o : IsOrder cmp) (l : List (K × V)) (ks : List K)
      → Ascending cmp (keys_of l)
      → Ascending cmp ks
      → intersect cmp (map ok l) ks ≡ map ok (retain (λ (e : K × V). member cmp e.0 ks) l)
  unfolding intersect
  intersect-retain o [] ks hl hk = refl
  intersect-retain o (e ∷ l) [] hl hk = rw (retain_nothing (e ∷ l)) refl
  intersect-retain o ((j, v) ∷ l) (k ∷ ks) hl hk =
      intersect-round o j v l k ks (cmp j k) hl hk refl (intersect-retain o l (k ∷ ks) hl.1 hk)
        (intersect-retain o l ks hl.1 hk.1) (intersect-retain o ((j, v) ∷ l) ks hl hk.1)
