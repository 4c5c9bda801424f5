-- ===== src/FifoSet.antt =====
-- indexer-lib/src/fifo_set.rs, over the insertion-ordered set of the `ringmap` dependency. The
-- fields of `RingSet` that end in a law state what that set documents; `to_list` is its content,
-- oldest first.
pub mod Window
use local_rusty_indexer_poc.Prelude.{
  ℕ, ◌≤◌, ◌<◌, ◌≡◌, Bool, true, false, ◌||◌, List, [], ◌∷◌, ◌++◌, length, ◌==◌, if◌then◌else◌,
}
use local_rusty_indexer_poc.Bytes.{Bytes, ◌=ᵇ◌}

abbrev pub mem : Bytes → List Bytes → Bool
mem j [] = false
mem j (k ∷ ks) = k =ᵇ j || mem j ks

abbrev pub tail : List Bytes → List Bytes
tail [] = []
tail (x ∷ xs) = xs

-- keys are byte strings: hashes, ids and encoded requests
pub record RingSet : Type 1 where
  pub Ring : Type 0
  pub with_capacity : ℕ → Ring
  pub ring_contains : Ring → Bytes → Bool
  pub len : Ring → ℕ
  pub capacity : Ring → ℕ
  pub pop_front : Ring → Ring
  pub ring_insert : Ring → Bytes → Ring
  pub to_list : Ring → List Bytes
  pub contains_lem : (s : Ring) (k : Bytes) → ring_contains s k ≡ mem k (to_list s)
  pub len_lem : (s : Ring) → len s ≡ length (to_list s)
  pub to_list-with_capacity : (n : ℕ) → to_list (with_capacity n) ≡ []
  pub to_list-pop_front : (s : Ring) → to_list (pop_front s) ≡ tail (to_list s)
  pub to_list-insert :
      (s : Ring) (k : Bytes)
      → ring_contains s k ≡ false
      → to_list (ring_insert s k) ≡ to_list s ++ k ∷ []
  pub le-capacity : (n : ℕ) → n ≤ capacity (with_capacity n)
  -- the capacity is a lower bound of what fits: it may grow, and does not shrink
  pub capacity-pop_front : (s : Ring) → capacity s ≤ capacity (pop_front s)
  pub capacity-insert :
      (s : Ring) (k : Bytes) → len s < capacity s → capacity s ≤ capacity (ring_insert s k)

-- A set whose capacity changes only when it is full, which the dependency does not promise.
pub record IsExact (r : RingSet) : Type 0 where
  pub exact-pop_front : (s : r.Ring) → r.capacity (r.pop_front s) ≡ r.capacity s
  pub exact-insert :
      (s : r.Ring) (k : Bytes)
      → r.len s < r.capacity s
      → r.capacity (r.ring_insert s k) ≡ r.capacity s

module _ (r : RingSet) where
  open r use {Ring, with_capacity, ring_contains, len, capacity, pop_front, ring_insert}

  pub record FifoSet : Type 0 where
    pub set : Ring

  unfoldable pub new : ℕ → FifoSet
  new n = record { set = with_capacity n }

  unfoldable pub contains : FifoSet → Bytes → Bool
  contains s key = ring_contains s.set key

  -- the oldest key goes when the set is full
  unfoldable pub make_room : Ring → Ring
  make_room s = if len s == capacity s then pop_front s else s

  -- the set after the call, and whether the key was new
  unfoldable pub insert : FifoSet → Bytes → FifoSet × Bool
  unfolding make_room
  insert s key =
      if ring_contains s.set key
      then (s, false)
      else (record { set = ring_insert (make_room s.set) key }, true)
