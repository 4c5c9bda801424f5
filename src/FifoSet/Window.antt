-- ===== src/FifoSet/Window.antt =====
-- What the set remembers: the last keys, as many as it has room for.
use mathlib.Core.List.{append_assoc}
use local_rusty_indexer_poc.Prelude.{
  ℕ, ◌+◌, ◌-◌, not, ◌≤◌, ◌<◌, ◌≡◌, refl, sym, ◌∙◌, true, false, List, [], ◌∷◌, ◌++◌, length, ◌==◌,
  if◌then◌else◌, arith, length-append, Bool-cases, inl, inr,
}
use local_rusty_indexer_poc.Bytes.{Bytes, =ᵇ_refl}
use local_rusty_indexer_poc.FifoSet.{mem, tail, RingSet, FifoSet, insert, contains, make_room, new}

-- the abstract set: a list of at most `cap` keys, oldest first
abbrev pub remember : ℕ → List Bytes → Bytes → List Bytes
remember cap keys key =
    if mem key keys then keys else (if length keys == cap then tail keys else keys) ++ key ∷ []

abbrev pub remember_all : ℕ → List Bytes → List Bytes → List Bytes
remember_all cap keys [] = keys
remember_all cap keys (k ∷ ks) = remember_all cap (remember cap keys k) ks

mem-tail : (k : Bytes) (l : List Bytes) → mem k l ≡ false → mem k (tail l) ≡ false
mem-tail k [] h = refl
mem-tail k (x ∷ l) h = ground arith

mem-append :
    (k : Bytes) (xs ys : List Bytes) → mem k (xs ++ ys) ≡ (if mem k xs then true else mem k ys)
mem-append k [] ys = refl
mem-append k (x ∷ xs) ys = ground (arith, mem-append k xs ys)

length-tail : (l : List Bytes) → length (tail l) ≡ length l - 1
length-tail [] = omega arith
length-tail (x ∷ l) = omega arith

module _ (r : RingSet) where
  open r use {
    Ring, ring_contains, len, capacity, pop_front, ring_insert, to_list, contains_lem, len_lem,
    to_list-pop_front, to_list-insert, capacity-pop_front, capacity-insert,
  }

  -- The set is never over its capacity, and has room for one key at least.
  pub record IsValid (s : FifoSet r) : Type 0 where
    pub within : length (to_list s.set) ≤ capacity s.set
    pub room : 0 < capacity s.set

  to_list-make_room :
      (s : Ring)
      → to_list (make_room r s)
        ≡ (if length (to_list s) == capacity s then tail (to_list s) else to_list s)
  unfolding make_room
  to_list-make_room s = ground (arith, len_lem s, to_list-pop_front s)

  capacity-make_room : (s : Ring) → capacity s ≤ capacity (make_room r s)
  unfolding make_room
  capacity-make_room s = ground (arith, capacity-pop_front s)

  room_made : (s : FifoSet r) → IsValid s → length (to_list (make_room r s.set)) < capacity s.set
  room_made s v =
      rw (to_list-make_room s.set) (ground (arith, v.within, v.room, length-tail (to_list s.set)))

  still_absent :
      (s : Ring) (k : Bytes) → mem k (to_list s) ≡ false → ring_contains (make_room r s) k ≡ false
  still_absent s k h =
      rw (contains_lem (make_room r s) k, to_list-make_room s)
        (ground (arith, h, mem-tail k (to_list s)))

  small-make_room :
      (s : FifoSet r) → IsValid s → len (make_room r s.set) < capacity (make_room r s.set)
  small-make_room s v =
      rw (len_lem (make_room r s.set)) (omega (arith, room_made s v, capacity-make_room s.set))

  insert_new :
      (s : FifoSet r) (key : Bytes)
      → IsValid s
      → mem key (to_list s.set) ≡ false
      → (to_list (ring_insert (make_room r s.set) key)
          ≡ remember (capacity s.set) (to_list s.set) key)
        × (capacity s.set ≤ capacity (ring_insert (make_room r s.set) key))
        × (length (to_list (ring_insert (make_room r s.set) key)) ≤ capacity s.set)
  insert_new s key v h =
      let content = to_list-insert (make_room r s.set) key (still_absent s.set key h) in
      (
        rw (content, h, to_list-make_room s.set) refl,
        omega (
          arith,
          capacity-insert (make_room r s.set) key (small-make_room s v),
          capacity-make_room s.set,
        ),
        rw content
            (omega (arith, length-append (to_list (make_room r s.set)) (key ∷ []), room_made s v)),
      )

  -- Inserting is remembering: on a valid set the result holds exactly the keys of the abstract
  -- set, its capacity does not shrink, it is valid, and the answer says whether the key was new.
  insert-remember :
      (s : FifoSet r) (key : Bytes)
      → IsValid s
      → (to_list (insert r s key).0.set ≡ remember (capacity s.set) (to_list s.set) key)
        × (capacity s.set ≤ capacity (insert r s key).0.set)
        × IsValid (insert r s key).0
        × ((insert r s key).1 ≡ not (mem key (to_list s.set)))
  unfolding insert
  insert-remember s key v = elim (Bool-cases (mem key (to_list s.set))) [
    | inl old ↦ rw (contains_lem s.set key, old) (refl, omega arith, v, refl)
    | inr new ↦
        let (content, cap, fits) = insert_new s key v new in
        rw (contains_lem s.set key, new)
          (
            rw new at content,
            cap,
            record { within = omega arith; room = omega (arith, v.room) },
            refl,
          )
  ]

remember_shape :
    (cap : ℕ) (front : List Bytes) (k : Bytes) (back : List Bytes) (key : Bytes)
    → length back + 1 < cap
    → (front' : List Bytes) × (back' : List Bytes) × (remember cap (front ++ k ∷ back) key
        ≡ front' ++ k ∷ back')
      × (length back' ≤ length back + 1)
remember_shape cap front k back key h = elim (Bool-cases (mem key (front ++ k ∷ back))) [
  | inl old ↦ (front, back, rw old refl, omega arith)
  | inr new ↦ elim (Bool-cases (length (front ++ k ∷ back) == cap)) [
    | inr room ↦ (
      front,
      back ++ key ∷ [],
      rw (new, room) (append_assoc front (k ∷ back) (key ∷ [])),
      omega (arith, length-append back (key ∷ [])),
    )
    | inl full ↦ (
      tail front,
      back ++ key ∷ [],
      rw (new, full) (evict front (ground (arith, length-append front (k ∷ back)))),
      omega (arith, length-append back (key ∷ [])),
    )
  ]
]
  where
    evict :
        (f : List Bytes)
        → 0 < length f
        → tail (f ++ k ∷ back) ++ key ∷ [] ≡ tail f ++ k ∷ (back ++ key ∷ [])
    evict [] p = absurd (omega arith)
    evict (x ∷ f) p = append_assoc f (k ∷ back) (key ∷ [])

mem-middle : (front : List Bytes) (k : Bytes) (back : List Bytes) → mem k (front ++ k ∷ back) ≡ true
mem-middle [] k back = ground (arith, =ᵇ_refl k)
mem-middle (x ∷ front) k back = ground (arith, mem-middle front k back)

module _ (r : RingSet) where
  open r use {to_list, capacity, contains_lem}

  -- `insert` of each key in turn, the answers dropped
  unfoldable pub insert_all : FifoSet r → List Bytes → FifoSet r
  insert_all s [] = s
  insert_all s (k ∷ ks) = insert_all (insert r s k).0 ks

  -- a key with few keys behind it stays, even when the capacity grows
  insert_all_keeps :
      (s : FifoSet r) (front : List Bytes) (k : Bytes) (back : List Bytes) (ks : List Bytes)
      → IsValid r s
      → to_list s.set ≡ front ++ k ∷ back
      → length back + length ks < capacity s.set
      → contains r (insert_all s ks) k ≡ true
  unfolding contains insert_all
  insert_all_keeps s front k back [] v content h =
      rw (contains_lem s.set k, content) (mem-middle front k back)
  insert_all_keeps s front k back (key ∷ ks) v content h =
      let (next, cap, v', _) = insert-remember r s key v in
      let (front', back', shape, grown) =
        remember_shape (capacity s.set) front k back key (omega arith) in
      let placed : to_list (insert r s key).0.set ≡ front' ++ k ∷ back' = next ∙ rw content shape in
      insert_all_keeps (insert r s key).0 front' k back' ks v' placed (omega arith)

  -- A key that was new is still contained after fewer further insertions than the capacity.
  pub contains-insert_all :
      (s : FifoSet r) (key : Bytes) (ks : List Bytes)
      → IsValid r s
      → contains r s key ≡ false
      → length ks < capacity s.set
      → contains r (insert_all (insert r s key).0 ks) key ≡ true
  unfolding contains
  contains-insert_all s key ks v new h =
      let (content, cap, v', _) = insert-remember r s key v in
      let absent : mem key (to_list s.set) ≡ false = sym (contains_lem s.set key) ∙ new in
      let kept =
        if length (to_list s.set) == capacity s.set then tail (to_list s.set) else to_list s.set in
      let placed : to_list (insert r s key).0.set ≡ kept ++ key ∷ [] = content ∙ rw absent refl in
      insert_all_keeps (insert r s key).0 kept key [] ks v' placed (omega arith)
