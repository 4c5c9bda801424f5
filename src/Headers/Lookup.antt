-- ===== src/Headers/Lookup.antt =====
-- What the header partitions give back.
use mathlib.Core.List.{append-nil}
use local_rusty_indexer_poc.Prelude.{
  ℕ, Bool, ◌≡◌, refl, ap, ◌<◌, ◌^◌, Bool-cases, inl, inr, some, none, List, [], ◌∷◌, map, retain,
  All, ltb, is_empty, last?, length, arith, ok, err, invalid_key_length, if◌then◌else◌,
  length-append,
}
use local_rusty_indexer_poc.Bytes.{Bytes, ◌=ᵇ◌}
use local_rusty_indexer_poc.Bytes.Endian.{
  to_be_bytes, length-to_be_bytes, length-to_le_bytes, from_be_bytes-to_be_bytes, to_le_bytes,
  from_le_bytes-to_le_bytes,
}
use local_rusty_indexer_poc.Keys.Layout.{slice, join, slices-join_all, length-join, nth}
use local_rusty_indexer_poc.Store.Ordered.{range_to-scored}
use local_rusty_indexer_poc.Store.{Fjall, Entry}
use local_rusty_indexer_poc.Headers.Compact.{
  get_compact_header, insert_compact_header, get_compact_header_rtx, read_header, header_bytes,
}
use local_rusty_indexer_poc.Headers.DaaIndex.{
  make_key, decode_index, iter_lt, latest_daa, latest, score_of_key,
}

-- the two fields of a stored header
fields :
    (a b : Bytes)
    → length a ≡ 24
    → length b ≡ 8
    → (length (join (a ∷ b ∷ [])) ≡ 32)
      × (slice 0 24 (join (a ∷ b ∷ [])) ≡ a)
      × (slice 24 8 (join (a ∷ b ∷ [])) ≡ b)
fields a b ha hb =
    let parts = slices-join_all (24 ∷ 8 ∷ []) (a ∷ b ∷ []) (rw (ha, hb) refl) in
    (rw (length-join (a ∷ b ∷ []), ha, hb) refl, ap (nth 0) parts, ap (nth 1) parts)

module _ (db : Fjall) where
  open db use {Tree, get, iter, get-insert}

  -- A header that is inserted is what its block's lookup finds, both numbers exact, and every
  -- other block's lookup is unchanged.
  pub get_compact_header-insert_compact_header :
      (t : Tree) (block_hash : Bytes) (blue_work daa_score : ℕ) (j : Bytes)
      → blue_work < 256 ^ 24
      → daa_score < 256 ^ 8
      → get_compact_header db (insert_compact_header db t block_hash blue_work daa_score) j ≡ (
          if block_hash =ᵇ j
          then ok (some (record { blue_work = blue_work; daa_score = daa_score }))
          else get_compact_header db t j)
  unfolding get_compact_header insert_compact_header get_compact_header_rtx read_header header_bytes
  get_compact_header-insert_compact_header t block_hash blue_work daa_score j hb hd =
      let (whole, first, second) =
        fields (to_le_bytes 24 blue_work) (to_le_bytes 8 daa_score)
          (length-to_le_bytes 24 blue_work) (length-to_le_bytes 8 daa_score) in
      elim (Bool-cases (block_hash =ᵇ j)) [
        | inr e ↦
            rw
              (
                get-insert t block_hash
                    (join (to_le_bytes 24 blue_work ∷ to_le_bytes 8 daa_score ∷ [])) j,
                e,
              )
              refl
        | inl e ↦
            rw
              (
                get-insert t block_hash
                    (join (to_le_bytes 24 blue_work ∷ to_le_bytes 8 daa_score ∷ [])) j,
                e,
                whole,
                first,
                second,
                from_le_bytes-to_le_bytes 24 blue_work hb,
                from_le_bytes-to_le_bytes 8 daa_score hd,
              )
              refl
      ]

  -- a position in the index: a score and a hash
  abbrev pub index_entry : ℕ × Bytes → Entry
  index_entry p = (make_key p.0 p.1, [])

  abbrev pub IsPosition : ℕ × Bytes → Type 0
  IsPosition p = (p.0 < 256 ^ 8) × (length p.1 ≡ 32)

  length-make_key : (p : ℕ × Bytes) → IsPosition p → length (make_key p.0 p.1) ≡ 40
  unfolding make_key
  length-make_key p h =
      omega (arith, length-append (to_be_bytes 8 p.0) p.1, length-to_be_bytes 8 p.0, h.1)

  decode_index-entry : (p : ℕ × Bytes) → IsPosition p → decode_index (index_entry p) ≡ ok p
  unfolding decode_index make_key
  decode_index-entry (s, b) h =
      let parts =
        slices-join_all (8 ∷ 32 ∷ []) (to_be_bytes 8 s ∷ b ∷ [])
          (rw (length-to_be_bytes 8 s, h.1) refl) in
      let first = ap (nth 0) parts in
      let second = ap (nth 1) parts in
      rw
        (
          length-make_key (s, b) h,
          rw (append-nil b) at first,
          rw (append-nil b) at second,
          from_be_bytes-to_be_bytes 8 s h.0,
        )
        refl

  map-decode_index :
      (l : List (ℕ × Bytes)) → All IsPosition l → map decode_index (map index_entry l) ≡ map ok l
  map-decode_index [] h = refl
  map-decode_index (p ∷ l) h = rw (decode_index-entry p h.0, map-decode_index l h.1) refl

  All-retain :
      (q : ℕ × Bytes → Bool) (l : List (ℕ × Bytes)) → All IsPosition l → All IsPosition (retain q l)
  All-retain q [] h = tt
  All-retain q (p ∷ l) h = elim (Bool-cases (q p)) [
    | inl e ↦ rw e (h.0, All-retain q l h.1)
    | inr e ↦ rw e (All-retain q l h.1)
  ]

  scores : (l : List (ℕ × Bytes)) → All IsPosition l → All (λ (p : ℕ × Bytes). p.0 < 256 ^ 8) l
  scores [] h = tt
  scores (p ∷ l) h = (h.0.0, scores l h.1)

  -- On an index of well-formed positions, `iter_lt` gives exactly the positions with a score
  -- strictly below the bound, in index order, without an error.
  pub iter_lt-exact :
      (t : Tree) (max_daa : ℕ) (l : List (ℕ × Bytes))
      → max_daa < 256 ^ 8
      → All IsPosition l
      → iter t ≡ map index_entry l
      → iter_lt db t max_daa ≡ map ok (retain (λ (p : ℕ × Bytes). ltb p.0 max_daa) l)
  unfolding iter_lt make_key
  iter_lt-exact t max_daa l h all content =
      rw
        (range_to-scored (λ (p : ℕ × Bytes). p.0) (λ (p : ℕ × Bytes). p.1) (λ (p : ℕ × Bytes). [])
          db t max_daa l h (scores l all) content)
        (map-decode_index (retain (λ (p : ℕ × Bytes). ltb p.0 max_daa) l)
          (All-retain (λ (p : ℕ × Bytes). ltb p.0 max_daa) l all))

  latest-entry :
      (p : ℕ × Bytes) (l : List (ℕ × Bytes))
      → All IsPosition (p ∷ l)
      → latest (last? (map index_entry (p ∷ l))) ≡ err invalid_key_length
  unfolding latest score_of_key
  latest-entry p [] h = rw (length-make_key p h.0) refl
  latest-entry p (q ∷ l) h = latest-entry q l h.1

  -- On an index of well-formed positions, `latest_daa` answers only when the index is empty: with
  -- any position in it, the conversion of the 40-byte key to 8 bytes fails.
  pub latest_daa_fails :
      (t : Tree) (l : List (ℕ × Bytes))
      → All IsPosition l
      → iter t ≡ map index_entry l
      → latest_daa db t ≡ (if is_empty l then ok none else err invalid_key_length)
  unfolding latest_daa latest
  latest_daa_fails t [] all content = rw content refl
  latest_daa_fails t (p ∷ l) all content = rw content (latest-entry p l all)
