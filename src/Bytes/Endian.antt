-- ===== src/Bytes/Endian.antt =====
-- `to_be_bytes`, `from_be_bytes`, `to_le_bytes` and `from_le_bytes` at any width.
use native.Mathlib.Nat.{
  pow-suc, div-add-mod, mod-lt, mod-eq_of_lt, mul-suc, mul-le-mul_left, div-lt_iff_lt-mul,
}
use local_rusty_indexer_poc.Prelude.{
  ℕ, zero, suc, ◌+◌, ◌*◌, ◌/◌, ◌%◌, ◌^◌, ◌<◌, ◌≤◌, ◌≡◌, refl, Bool, List, [], ◌∷◌, arith, length,
  ltb, ◌++◌, ◌==◌, if◌then◌else◌, true, false,
}

-- lexicographic order of byte strings, as `Ord for [u8]`
unfoldable pub lex_ltb : List ℕ → List ℕ → Bool
lex_ltb [] [] = false
lex_ltb [] (y ∷ ys) = true
lex_ltb (x ∷ xs) [] = false
lex_ltb (x ∷ xs) (y ∷ ys) = if x == y then lex_ltb xs ys else ltb x y

-- least significant byte first
unfoldable pub to_le_bytes : ℕ → ℕ → List ℕ
to_le_bytes zero n = []
to_le_bytes (suc w) n = n % 256 ∷ to_le_bytes w (n / 256)

unfoldable pub from_le_bytes : List ℕ → ℕ
from_le_bytes [] = 0
from_le_bytes (b ∷ bs) = b + 256 * from_le_bytes bs

-- most significant byte first
unfoldable pub to_be_bytes : ℕ → ℕ → List ℕ
to_be_bytes zero n = []
to_be_bytes (suc w) n = (n / 256 ^ w % 256) ∷ to_be_bytes w (n % 256 ^ w)

unfoldable pub from_be_bytes : List ℕ → ℕ
from_be_bytes [] = 0
from_be_bytes (b ∷ bs) = b * 256 ^ length bs + from_be_bytes bs

pub length-to_be_bytes : (w n : ℕ) → length (to_be_bytes w n) ≡ w
unfolding to_be_bytes
length-to_be_bytes zero n = refl
length-to_be_bytes (suc w) n = omega (arith, length-to_be_bytes w (n % 256 ^ w))

pub length-to_le_bytes : (w n : ℕ) → length (to_le_bytes w n) ≡ w
unfolding to_le_bytes
length-to_le_bytes zero n = refl
length-to_le_bytes (suc w) n = omega (arith, length-to_le_bytes w (n / 256))

pow_pos : (w : ℕ) → 0 < 256 ^ w
pow_pos zero = omega arith
pow_pos (suc w) = omega (arith, pow-suc 256 w, pow_pos w)

pub from_le_bytes-to_le_bytes : (w n : ℕ) → n < 256 ^ w → from_le_bytes (to_le_bytes w n) ≡ n
unfolding to_le_bytes from_le_bytes
from_le_bytes-to_le_bytes zero n h = omega arith
from_le_bytes-to_le_bytes (suc w) n h =
    omega (arith, from_le_bytes-to_le_bytes w (n / 256) (omega (arith, pow-suc 256 w)))

top_byte : (p n : ℕ) → 0 < p → n < p * 256 → n / p % 256 ≡ n / p
top_byte p n h l = mod-eq_of_lt ((div-lt_iff_lt-mul h).1 (omega arith))

pub from_be_bytes-to_be_bytes : (w n : ℕ) → n < 256 ^ w → from_be_bytes (to_be_bytes w n) ≡ n
unfolding to_be_bytes from_be_bytes
from_be_bytes-to_be_bytes zero n h = omega arith
from_be_bytes-to_be_bytes (suc w) n h =
    let room : n < 256 ^ w * 256 = omega (arith, pow-suc 256 w) in
    rw
      (
        length-to_be_bytes w (n % 256 ^ w),
        from_be_bytes-to_be_bytes w (n % 256 ^ w) (mod-lt n (pow_pos w)),
        top_byte (256 ^ w) n (pow_pos w) room,
      )
      (omega (arith, div-add-mod n (256 ^ w)))

row : (p a b : ℕ) → a < b → p * a + p ≤ p * b
row p a b h = omega (arith, mul-le-mul_left p h, mul-suc p a)

-- Comparing quotient, then remainder, is comparing the numbers.
digitwise :
    (p a r b s : ℕ)
    → r < p
    → s < p
    → (if a == b then ltb r s else ltb a b) ≡ ltb (p * a + r) (p * b + s)
digitwise p a r b s h k = ground (arith, row p a b, row p b a)

-- On numbers of the same width, byte order is number order, whatever follows the first.
pub lex_ltb-to_be_bytes :
    (w m n : ℕ) (rest : List ℕ)
    → m < 256 ^ w
    → n < 256 ^ w
    → lex_ltb (to_be_bytes w m ++ rest) (to_be_bytes w n) ≡ ltb m n
unfolding to_be_bytes lex_ltb
lex_ltb-to_be_bytes zero m n [] h k = ground arith
lex_ltb-to_be_bytes zero m n (x ∷ xs) h k = ground arith
lex_ltb-to_be_bytes (suc w) m n rest h k =
    let room_m : m < 256 ^ w * 256 = omega (arith, pow-suc 256 w) in
    let room_n : n < 256 ^ w * 256 = omega (arith, pow-suc 256 w) in
    let low_m = mod-lt m (pow_pos w) in
    let low_n = mod-lt n (pow_pos w) in
    rw (
      top_byte (256 ^ w) m (pow_pos w) room_m,
      top_byte (256 ^ w) n (pow_pos w) room_n,
      lex_ltb-to_be_bytes w (m % 256 ^ w) (n % 256 ^ w) rest low_m low_n,
      digitwise (256 ^ w) (m / 256 ^ w) (m % 256 ^ w) (n / 256 ^ w) (n % 256 ^ w) low_m low_n,
      div-add-mod m (256 ^ w),
      div-add-mod n (256 ^ w),
    )
