-- ===== src/Store/Ordered.antt =====
-- Keys that start with a score in big-endian order are scanned by score.
use local_rusty_indexer_poc.Prelude.{
  ℕ, ◌≡◌, refl, ◌<◌, ◌^◌, Bool, not, List, [], ◌∷◌, ◌++◌, map, retain, All, ltb, Bool-cases, inl,
  inr,
}
use local_rusty_indexer_poc.Bytes.{Bytes}
use local_rusty_indexer_poc.Bytes.Endian.{to_be_bytes, lex_ltb, lex_ltb-to_be_bytes}
use local_rusty_indexer_poc.Store.{Fjall, Entry}

module _ {ℓ} {A : Type ℓ} (score : A → ℕ) (rest : A → Bytes) (value : A → Bytes) where
  -- the entry of an item: its score, the rest of its key, and its value
  abbrev pub scored : A → Entry
  scored a = (to_be_bytes 8 (score a) ++ rest a, value a)

  abbrev pub IsScore : A → Type 0
  IsScore a = score a < 256 ^ 8

  retain-scored :
      (p : Bool → Bool) (max : ℕ) (l : List A)
      → max < 256 ^ 8
      → All IsScore l
      → retain (λ e. p (lex_ltb e.0 (to_be_bytes 8 max))) (map scored l)
        ≡ map scored (retain (λ a. p (ltb (score a) max)) l)
  retain-scored p max [] h a = refl
  retain-scored p max (x ∷ l) h a =
      rw (lex_ltb-to_be_bytes 8 (score x) max (rest x) a.0 h)
        (elim (Bool-cases (p (ltb (score x) max))) [
          | inl e ↦ rw (e, retain-scored p max l h a.1) refl
          | inr e ↦ rw (e, retain-scored p max l h a.1) refl
        ])

  module _ (db : Fjall) where
    open db use {Tree, iter, range_to, range_from, range_to_lem, range_from_lem}

    pub range_to-scored :
        (t : Tree) (max : ℕ) (l : List A)
        → max < 256 ^ 8
        → All IsScore l
        → iter t ≡ map scored l
        → range_to t (to_be_bytes 8 max) ≡ map scored (retain (λ a. ltb (score a) max) l)
    range_to-scored t max l h a content =
        rw (range_to_lem t (to_be_bytes 8 max), content) (retain-scored (λ b. b) max l h a)

    pub range_from-scored :
        (t : Tree) (min : ℕ) (l : List A)
        → min < 256 ^ 8
        → All IsScore l
        → iter t ≡ map scored l
        → range_from t (to_be_bytes 8 min) ≡ map scored (retain (λ a. not (ltb (score a) min)) l)
    range_from-scored t min l h a content =
        rw (range_from_lem t (to_be_bytes 8 min), content) (retain-scored not min l h a)
