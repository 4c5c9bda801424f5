-- ===== src/Bytes.antt =====
-- Byte strings: the slice and integer conversions of the Rust standard library that the code uses.
pub mod Endian
pub mod Order
use Prim.Native.Nat.{compare, Ordering}
use local_rusty_indexer_poc.Prelude.{
  ℕ, zero, suc, ◌+◌, ◌<◌, ◌≡◌, refl, ap, Bool, true, false, ◌&&◌, Option, none, some, List, [], ◌∷◌,
  ◌++◌, arith, ◌==◌, if◌then◌else◌, ◌↔◌, both_true, ==_iff,
}

abbrev pub Bytes : Type 0
Bytes = List ℕ

-- `a == b` on byte strings
infix 50 ◌=ᵇ◌
unfoldable pub ◌=ᵇ◌ : Bytes → Bytes → Bool
[] =ᵇ [] = true
[] =ᵇ (y ∷ ys) = false
(x ∷ xs) =ᵇ [] = false
(x ∷ xs) =ᵇ (y ∷ ys) = x == y && xs =ᵇ ys

-- `slice::strip_prefix`
unfoldable pub strip_prefix : Bytes → Bytes → Option Bytes
strip_prefix [] s = some s
strip_prefix (p ∷ ps) [] = none
strip_prefix (p ∷ ps) (x ∷ xs) = if p == x then strip_prefix ps xs else none

-- `slice.iter().position(|b| b == &c)`
unfoldable pub position : ℕ → Bytes → Option ℕ
position c [] = none
position c (x ∷ xs) =
    if x == c then some 0 else elim (position c xs) [ none ↦ none | some i ↦ some (suc i) ]

pub =ᵇ_sound : (xs ys : Bytes) → xs =ᵇ ys ≡ true → xs ≡ ys
unfolding ◌=ᵇ◌
=ᵇ_sound [] [] h = refl
=ᵇ_sound [] (y ∷ ys) h = cc
=ᵇ_sound (x ∷ xs) [] h = cc
=ᵇ_sound (x ∷ xs) (y ∷ ys) h =
    let parts = both_true (x == y) (xs =ᵇ ys) h in
    cc ((==_iff x y).0 parts.0, =ᵇ_sound xs ys parts.1)

pub =ᵇ_refl : (xs : Bytes) → xs =ᵇ xs ≡ true
unfolding ◌=ᵇ◌
=ᵇ_refl [] = refl
=ᵇ_refl (x ∷ xs) = ground (arith, =ᵇ_refl xs)

pub =ᵇ_iff : (xs ys : Bytes) → (xs =ᵇ ys ≡ true) ↔ (xs ≡ ys)
=ᵇ_iff xs ys = (=ᵇ_sound xs ys, λ e. rw e (=ᵇ_refl ys))

-- What `strip_prefix` finds, it finds at the front.
pub strip_prefix_sound : (p s r : Bytes) → strip_prefix p s ≡ some r → s ≡ p ++ r
unfolding strip_prefix
strip_prefix_sound [] s r h = ground arith
strip_prefix_sound (p ∷ ps) [] r h = cc
strip_prefix_sound (p ∷ ps) (x ∷ xs) r h = ground (arith, strip_prefix_sound ps xs r)

pub strip_prefix-append : (p r : Bytes) → strip_prefix p (p ++ r) ≡ some r
unfolding strip_prefix
strip_prefix-append [] r = refl
strip_prefix-append (p ∷ ps) r = ground (arith, strip_prefix-append ps r)
