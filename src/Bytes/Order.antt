-- ===== src/Bytes/Order.antt =====
-- The lexicographic order of byte strings is a strict total order.
use local_rusty_indexer_poc.Prelude.{◌≡◌, refl, true, false, [], ◌∷◌, arith, ◌⊎◌, inl, inr}
use local_rusty_indexer_poc.Bytes.{Bytes, ◌=ᵇ◌, =ᵇ_iff}
use local_rusty_indexer_poc.Bytes.Endian.{lex_ltb}

pub lex_irrefl : (a : Bytes) → lex_ltb a a ≡ false
unfolding lex_ltb
lex_irrefl [] = refl
lex_irrefl (x ∷ xs) = ground (arith, lex_irrefl xs)

pub lex_trans : (a b c : Bytes) → lex_ltb a b ≡ true → lex_ltb b c ≡ true → lex_ltb a c ≡ true
unfolding lex_ltb
lex_trans [] [] c h k = cc
lex_trans [] (y ∷ ys) [] h k = cc
lex_trans [] (y ∷ ys) (z ∷ zs) h k = refl
lex_trans (x ∷ xs) [] c h k = cc
lex_trans (x ∷ xs) (y ∷ ys) [] h k = cc
lex_trans (x ∷ xs) (y ∷ ys) (z ∷ zs) h k = ground (arith, lex_trans xs ys zs)

pub lex_total : (a b : Bytes) → (lex_ltb a b ≡ true) ⊎ ((a ≡ b) ⊎ (lex_ltb b a ≡ true))
unfolding lex_ltb
lex_total [] [] = inr (inl refl)
lex_total [] (y ∷ ys) = inl refl
lex_total (x ∷ xs) [] = inr (inr refl)
lex_total (x ∷ xs) (y ∷ ys) = ground (arith, lex_total xs ys)

pub lex_ne : (a b : Bytes) → lex_ltb a b ≡ true → a =ᵇ b ≡ false
lex_ne a b h = ground (arith, =ᵇ_iff a b, lex_irrefl a)

pub lex_ne' : (a b : Bytes) → lex_ltb a b ≡ true → b =ᵇ a ≡ false
lex_ne' a b h = ground (arith, =ᵇ_iff b a, lex_irrefl a)

pub lex_asym : (a b : Bytes) → lex_ltb a b ≡ true → lex_ltb b a ≡ false
lex_asym a b h = ground (arith, lex_trans a b a, lex_irrefl a)
