-- ===== src/Headers/GapScan.antt =====
-- What the partition of gaps gives back.
use local_rusty_indexer_poc.Prelude.{
  ℕ, Bool, ◌≡◌, refl, ap, ◌<◌, ◌^◌, Bool-cases, inl, inr, List, [], ◌∷◌, map, retain, All, not, ltb,
  length, ok, ◌∙◌,
}
use local_rusty_indexer_poc.Bytes.{Bytes}
use local_rusty_indexer_poc.Bytes.Endian.{
  to_be_bytes, length-to_be_bytes, from_be_bytes, from_be_bytes-to_be_bytes,
}
use local_rusty_indexer_poc.Keys.Layout.{join, total, slices-join_all, length-join, nth}
use local_rusty_indexer_poc.Store.Ordered.{range_from-scored}
use local_rusty_indexer_poc.Store.{Fjall, Entry}
use local_rusty_indexer_poc.Headers.Gaps.{
  BlockGap, gap_key, gap_key_bytes, decode_gap, get_all_gaps_since_daa,
}

-- the entry that a gap is stored as
abbrev pub gap_entry : BlockGap → Entry
unfolding gap_key_bytes
gap_entry gap = (gap_key_bytes (gap_key gap), [])

-- scores of 64 bits, blue work of 192 bits, hashes of 32 bytes
abbrev pub IsGap : BlockGap → Type 0
IsGap gap =
    (gap.from_daa_score < 256 ^ 8)
    × (gap.from_blue_work < 256 ^ 24)
    × (length gap.from_block_hash ≡ 32)
    × (gap.to_blue_work < 256 ^ 24)
    × (length gap.to_block_hash ≡ 32)
    × (gap.to_daa_score < 256 ^ 8)

-- the bytes of a gap's key behind its first score
abbrev gap_rest : BlockGap → Bytes
gap_rest gap = join (
    to_be_bytes 24 gap.from_blue_work
    ∷ gap.from_block_hash
    ∷ to_be_bytes 24 gap.to_blue_work
    ∷ gap.to_block_hash
    ∷ to_be_bytes 8 gap.to_daa_score
    ∷ [])

abbrev gap_fields : BlockGap → List Bytes
gap_fields gap =
    to_be_bytes 8 gap.from_daa_score
    ∷ to_be_bytes 24 gap.from_blue_work
    ∷ gap.from_block_hash
    ∷ to_be_bytes 24 gap.to_blue_work
    ∷ gap.to_block_hash
    ∷ to_be_bytes 8 gap.to_daa_score
    ∷ []

abbrev gap_widths : List ℕ
gap_widths = 8 ∷ 24 ∷ 32 ∷ 24 ∷ 32 ∷ 8 ∷ []

abbrev build_gap : List Bytes → BlockGap
build_gap fs = record {
  from_daa_score = from_be_bytes (nth 0 fs);
  from_blue_work = from_be_bytes (nth 1 fs);
  from_block_hash = nth 2 fs;
  to_blue_work = from_be_bytes (nth 3 fs);
  to_block_hash = nth 4 fs;
  to_daa_score = from_be_bytes (nth 5 fs);
}

gap_fields_widths : (gap : BlockGap) → IsGap gap → map length (gap_fields gap) ≡ gap_widths
gap_fields_widths gap (a, b, c, d, e, f) =
    rw
      (
        length-to_be_bytes 8 gap.from_daa_score,
        length-to_be_bytes 24 gap.from_blue_work,
        c,
        length-to_be_bytes 24 gap.to_blue_work,
        e,
        length-to_be_bytes 8 gap.to_daa_score,
      )
      refl

build_gap-fields : (gap : BlockGap) → IsGap gap → build_gap (gap_fields gap) ≡ gap
build_gap-fields gap (a, b, c, d, e, f) =
    rw
      (
        from_be_bytes-to_be_bytes 8 gap.from_daa_score a,
        from_be_bytes-to_be_bytes 24 gap.from_blue_work b,
        from_be_bytes-to_be_bytes 24 gap.to_blue_work d,
        from_be_bytes-to_be_bytes 8 gap.to_daa_score f,
      )
      refl

length-gap_key_bytes : (gap : BlockGap) → IsGap gap → length (gap_key_bytes (gap_key gap)) ≡ 128
unfolding gap_key_bytes
length-gap_key_bytes gap h = length-join (gap_fields gap) ∙ ap total (gap_fields_widths gap h)

decode_gap-entry : (gap : BlockGap) → IsGap gap → decode_gap (gap_entry gap) ≡ ok gap
unfolding decode_gap gap_key_bytes
decode_gap-entry gap h = rw (length-gap_key_bytes gap h) (
    ap ok (
      ap build_gap (slices-join_all gap_widths (gap_fields gap) (gap_fields_widths gap h))
      ∙ build_gap-fields gap h))

map-decode_gap : (l : List BlockGap) → All IsGap l → map decode_gap (map gap_entry l) ≡ map ok l
map-decode_gap [] h = refl
map-decode_gap (gap ∷ l) h = rw (decode_gap-entry gap h.0, map-decode_gap l h.1) refl

All-since : (q : BlockGap → Bool) (l : List BlockGap) → All IsGap l → All IsGap (retain q l)
All-since q [] h = tt
All-since q (gap ∷ l) h = elim (Bool-cases (q gap)) [
  | inl e ↦ rw e (h.0, All-since q l h.1)
  | inr e ↦ rw e (All-since q l h.1)
]

from_scores :
    (l : List BlockGap) → All IsGap l → All (λ (gap : BlockGap). gap.from_daa_score < 256 ^ 8) l
from_scores [] h = tt
from_scores (gap ∷ l) h = (h.0.0, from_scores l h.1)

module _ (db : Fjall) where
  open db use {Tree, iter}

  -- On a partition that holds a list of gaps with scores of 64 bits, blue work of 192 bits and
  -- hashes of 32 bytes, the scan since a score of 64 bits gives exactly the gaps that begin at that
  -- score or later, in the partition's order, each as it was stored and none as an error.
  pub get_all_gaps_since_daa-exact :
      (t : Tree) (since_daa : ℕ) (l : List BlockGap)
      → since_daa < 256 ^ 8
      → All IsGap l
      → iter t ≡ map gap_entry l
      → get_all_gaps_since_daa db t since_daa
        ≡ map ok (retain (λ (gap : BlockGap). not (ltb gap.from_daa_score since_daa)) l)
  unfolding get_all_gaps_since_daa gap_key_bytes
  get_all_gaps_since_daa-exact t since_daa l h all content =
      let q : BlockGap → Bool = λ gap. not (ltb gap.from_daa_score since_daa) in
      rw
        (range_from-scored (λ (gap : BlockGap). gap.from_daa_score) gap_rest
          (λ (gap : BlockGap). []) db t since_daa l h (from_scores l all) content)
        (map-decode_gap (retain q l) (All-since q l all))
