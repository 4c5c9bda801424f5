-- ===== src/Keys/Layout.antt =====
-- `#[repr(C)]` structs of byte arrays: the bytes of a struct are its fields one behind another, and
-- a field is a slice at a fixed offset (`bytemuck::bytes_of`, `bytemuck::from_bytes`).
use native.Mathlib.Nat.{zero-add, suc-add, mul-suc}
use mathlib.Core.List.{append_assoc}
use local_rusty_indexer_poc.Prelude.{
  ℕ, ◌*◌, All, ap, zero, suc, ◌+◌, ◌≤◌, ◌<◌, ◌≡◌, refl, sym, List, [], ◌∷◌, ◌++◌, map, arith,
  length, take, drop, length-append, take-append, drop-append, take-append-drop,
}
use local_rusty_indexer_poc.Bytes.{Bytes}

-- `b[off..off + w]`
abbrev pub slice : ℕ → ℕ → Bytes → Bytes
slice off w b = take w (drop off b)

-- `b[off]`, with 0 past the end
abbrev pub byte_at : ℕ → Bytes → ℕ
byte_at zero [] = 0
byte_at zero (x ∷ xs) = x
byte_at (suc n) [] = 0
byte_at (suc n) (x ∷ xs) = byte_at n xs

abbrev pub join : List Bytes → Bytes
join [] = []
join (f ∷ fs) = f ++ join fs

abbrev pub slices : ℕ → List ℕ → Bytes → List Bytes
slices off [] b = []
slices off (w ∷ ws) b = slice off w b ∷ slices (off + w) ws b

abbrev pub total : List ℕ → ℕ
total [] = 0
total (w ∷ ws) = w + total ws

drop-drop : (m n : ℕ) (b : Bytes) → drop n (drop m b) ≡ drop (m + n) b
drop-drop zero n b = rw zero-add refl
drop-drop (suc m) zero [] = rw suc-add refl
drop-drop (suc m) (suc n) [] = rw suc-add refl
drop-drop (suc m) n (x ∷ b) = rw suc-add (drop-drop m n b)

drop_all : (n : ℕ) (b : Bytes) → length b ≤ n → drop n b ≡ []
drop_all zero [] h = refl
drop_all zero (x ∷ b) h = absurd (omega arith)
drop_all (suc n) [] h = refl
drop_all (suc n) (x ∷ b) h = drop_all n b (omega arith)

-- Slicing and joining again gives back the bytes.
join-slices :
    (off : ℕ) (ws : List ℕ) (b : Bytes)
    → off + total ws ≡ length b
    → join (slices off ws b) ≡ drop off b
join-slices off [] b h = sym (drop_all off b (omega arith))
join-slices off (w ∷ ws) b h =
    rw (join-slices (off + w) ws b (omega arith), ← drop-drop off w b)
      (take-append-drop w (drop off b))

pub join-slices_all : (ws : List ℕ) (b : Bytes) → total ws ≡ length b → join (slices 0 ws b) ≡ b
join-slices_all ws b h = join-slices 0 ws b (omega arith)

-- Joining and slicing again gives back the fields.
slices-join :
    (front : Bytes) (fs : List Bytes)
    → slices (length front) (map length fs) (front ++ join fs) ≡ fs
slices-join front [] = refl
slices-join front (f ∷ fs) =
    let later =
      rw (length-append front f, append_assoc front f (join fs)) at (slices-join (front ++ f) fs) in
    rw (later, drop-append front (f ++ join fs), take-append f (join fs))

pub slices-join_all :
    (ws : List ℕ) (fs : List Bytes) → map length fs ≡ ws → slices 0 ws (join fs) ≡ fs
slices-join_all ws fs h = rw (← h) (slices-join [] fs)

pub byte_at-slice : (n : ℕ) (b : Bytes) → n < length b → slice n 1 b ≡ byte_at n b ∷ []
byte_at-slice zero [] h = absurd (omega arith)
byte_at-slice zero (x ∷ b) h = refl
byte_at-slice (suc n) [] h = absurd (omega arith)
byte_at-slice (suc n) (x ∷ b) h = byte_at-slice n b (omega arith)

-- the field of that number
abbrev pub nth : ℕ → List Bytes → Bytes
nth n [] = []
nth zero (f ∷ fs) = f
nth (suc n) (f ∷ fs) = nth n fs

pub byte_at-eq-slice : (n : ℕ) (b : Bytes) → byte_at n b ≡ byte_at 0 (slice n 1 b)
byte_at-eq-slice zero [] = refl
byte_at-eq-slice zero (x ∷ b) = refl
byte_at-eq-slice (suc n) [] = refl
byte_at-eq-slice (suc n) (x ∷ b) = byte_at-eq-slice n b

pub length-join : (fs : List Bytes) → length (join fs) ≡ total (map length fs)
length-join [] = refl
length-join (f ∷ fs) = omega (arith, length-append f (join fs), length-join fs)

-- `n` slices of width `w`, one behind another
unfoldable pub chunks : ℕ → ℕ → Bytes → List Bytes
chunks w zero b = []
chunks w (suc n) b = take w b ∷ chunks w n (drop w b)

abbrev pub HasWidth : ℕ → Bytes → Type 0
HasWidth w b = length b ≡ w

pub length-join_width :
    (w : ℕ) (fs : List Bytes) → All (HasWidth w) fs → length (join fs) ≡ w * length fs
length-join_width w [] h = omega arith
length-join_width w (f ∷ fs) h =
    omega (arith, length-append f (join fs), h.0, length-join_width w fs h.1, mul-suc w (length fs))

pub chunks-join :
    (w : ℕ) (fs : List Bytes) → All (HasWidth w) fs → chunks w (length fs) (join fs) ≡ fs
unfolding chunks
chunks-join w [] h = refl
chunks-join w (f ∷ fs) h =
    let front = rw h.0 at (take-append f (join fs)) in
    let back = rw h.0 at (drop-append f (join fs)) in
    rw (front, back) (ap (◌∷◌ f) (chunks-join w fs h.1))
