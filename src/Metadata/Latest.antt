-- ===== src/Metadata/Latest.antt =====
-- The latest block cursor only moves forward.
use mathlib.Core.List.{append-nil}
use local_rusty_indexer_poc.Prelude.{
  ℕ, ◌≡◌, refl, sym, ap, ◌∙◌, ◌<◌, ◌^◌, Bool, Option, none, some, List, [], ◌∷◌, length, ◌==◌, ltb,
  ==_iff, arith, ok, if◌then◌else◌, Bool-cases, inl, inr,
}
use local_rusty_indexer_poc.Bytes.{Bytes, ◌=ᵇ◌, =ᵇ_iff}
use local_rusty_indexer_poc.Bytes.Endian.{
  to_be_bytes, from_be_bytes, to_le_bytes, lex_ltb, length-to_be_bytes, length-to_le_bytes,
  from_be_bytes-to_be_bytes, from_le_bytes-to_le_bytes, lex_ltb-to_be_bytes,
}
use local_rusty_indexer_poc.Keys.Layout.{slices-join_all, length-join, nth}
use local_rusty_indexer_poc.Store.{Fjall}
use local_rusty_indexer_poc.Store.Update.{get-fetch_update, get-fetch_update_same}
use local_rusty_indexer_poc.Metadata.{
  Cursor, CursorValue, latest_block_cursor, key_bytes, value_bytes, value_of, cursor_value,
  cursor_of, value_ltb, newer_value, read_cursor, set_latest_block_cursor, get_latest_block_cursor,
}

pub record IsCursor (c : Cursor) : Type 0 where
  pub daa_score : c.daa_score < 256 ^ 8
  pub blue_work : c.blue_work < 256 ^ 24
  pub hash : length c.hash ≡ 32

-- a cursor is behind another by blue work, then by hash, then by the little-endian bytes of the
-- score
abbrev pub behind : Cursor → Cursor → Bool
behind a b =
    if a.blue_work == b.blue_work
    then (if a.hash =ᵇ b.hash
        then lex_ltb (to_le_bytes 8 a.daa_score) (to_le_bytes 8 b.daa_score)
        else lex_ltb a.hash b.hash)
    else ltb a.blue_work b.blue_work

-- the abstract state: the furthest cursor so far
abbrev pub advance : Option Cursor → Cursor → Cursor
advance none new = new
advance (some old) new = if behind old new then new else old

abbrev pub stored : Cursor → Bytes
stored c = value_bytes (cursor_value c)

abbrev pub stored? : Option Cursor → Option Bytes
stored? none = none
stored? (some c) = some (stored c)

abbrev pub IsCursor? : Option Cursor → Type 0
IsCursor? none = Unit {0}
IsCursor? (some c) = IsCursor c

abbrev fields_of : List Bytes → CursorValue
fields_of ps = record { blue_work = nth 0 ps; block_hash = nth 1 ps; daa_score = nth 2 ps }

-- the length and the three fields of a stored cursor
stored_shape :
    (c : Cursor) → IsCursor c → (length (stored c) ≡ 64) × (value_of (stored c) ≡ cursor_value c)
unfolding value_bytes
stored_shape c v =
    let fs = to_be_bytes 24 c.blue_work ∷ c.hash ∷ to_le_bytes 8 c.daa_score ∷ [] in
    let parts =
      slices-join_all (24 ∷ 32 ∷ 8 ∷ []) fs
        (rw (length-to_be_bytes 24 c.blue_work, length-to_le_bytes 8 c.daa_score, v.hash) refl) in
    (
      rw
          (
            length-join fs,
            length-to_be_bytes 24 c.blue_work,
            length-to_le_bytes 8 c.daa_score,
            v.hash,
          )
          refl,
      ap fields_of parts,
    )

cursor_of-cursor_value : (c : Cursor) → IsCursor c → cursor_of (cursor_value c) ≡ c
cursor_of-cursor_value c v =
    rw
      (
        from_le_bytes-to_le_bytes 8 c.daa_score v.daa_score,
        from_be_bytes-to_be_bytes 24 c.blue_work v.blue_work,
      )
      refl

read_cursor-stored : (c : Cursor) → IsCursor c → read_cursor (some (stored c)) ≡ ok (some c)
unfolding read_cursor
read_cursor-stored c v = rw (stored_shape c v).0 (
    ap (λ value. ok (some (cursor_of value))) (stored_shape c v).1
    ∙ ap (λ cursor. ok (some cursor)) (cursor_of-cursor_value c v))

to_be_bytes-same :
    (w m n : ℕ) → m < 256 ^ w → n < 256 ^ w → (to_be_bytes w m =ᵇ to_be_bytes w n) ≡ (m == n)
to_be_bytes-same w m n hm hn = elim (Bool-cases (m == n)) [
  | inl e ↦ (=ᵇ_iff _ _).1 (ap (to_be_bytes w) ((==_iff m n).0 e)) ∙ sym e
  | inr e ↦ elim (Bool-cases (to_be_bytes w m =ᵇ to_be_bytes w n)) [
    | inr d ↦ d ∙ sym e
    | inl same ↦
        let equal : m ≡ n =
          sym (from_be_bytes-to_be_bytes w m hm)
          ∙ ap from_be_bytes ((=ᵇ_iff _ _).0 same)
          ∙ from_be_bytes-to_be_bytes w n hn in
        absurd (ground (arith, e, (==_iff m n).1 equal))
  ]
]

value_ltb-behind :
    (a b : Cursor)
    → IsCursor a
    → IsCursor b
    → value_ltb (cursor_value a) (cursor_value b) ≡ behind a b
unfolding value_ltb
value_ltb-behind a b va vb =
    rw
      (
        to_be_bytes-same 24 a.blue_work b.blue_work va.blue_work vb.blue_work,
        rw (append-nil (to_be_bytes 24 a.blue_work)) at
            (lex_ltb-to_be_bytes 24 a.blue_work b.blue_work [] va.blue_work vb.blue_work),
      )
      refl

newer_value-advance :
    (old : Option Cursor) (c : Cursor)
    → IsCursor? old
    → IsCursor c
    → newer_value (cursor_value c) (stored? old) ≡ ok (stored (advance old c))
unfolding newer_value
newer_value-advance none c v vc = refl
newer_value-advance (some a) c v vc = rw (stored_shape a v).0 (
    ap (λ value. ok (if value_ltb value (cursor_value c) then stored c else stored a))
      (stored_shape a v).1
    ∙ ap (λ (b : Bool). ok (if b then stored c else stored a)) (value_ltb-behind a c v vc)
    ∙ elim (Bool-cases (behind a c)) [ inl e ↦ rw e refl | inr e ↦ rw e refl ])

pub advance-IsCursor :
    (old : Option Cursor) (c : Cursor) → IsCursor? old → IsCursor c → IsCursor (advance old c)
advance-IsCursor none c v vc = vc
advance-IsCursor (some a) c v vc = elim (Bool-cases (behind a c)) [
  | inl e ↦ rw e vc
  | inr e ↦ rw e v
]

module _ (db : Fjall) where
  open db use {Tree, get}

  -- Setting the latest block cursor on a partition that holds the cursor `old`, or none, succeeds
  -- and stores the further of the two: a later read gives it back exactly, and the partition's
  -- other keys stay.
  pub set_latest_block_cursor-advance :
      (t : Tree) (old : Option Cursor) (c : Cursor)
      → IsCursor? old
      → IsCursor c
      → get t (key_bytes latest_block_cursor) ≡ stored? old
      → (t' : Tree) × (set_latest_block_cursor db t c ≡ ok t')
        × (get t' (key_bytes latest_block_cursor) ≡ some (stored (advance old c)))
        × (get_latest_block_cursor db t' ≡ ok (some (advance old c)))
        × ((j : Bytes)
            → get t' j ≡ (
                if key_bytes latest_block_cursor =ᵇ j
                then some (stored (advance old c))
                else get t j))
  unfolding set_latest_block_cursor get_latest_block_cursor
  set_latest_block_cursor-advance t old c v vc now =
      let value = stored (advance old c) in
      let update = λ (_ : Option Bytes). some value in
      let written = get-fetch_update_same db t (key_bytes latest_block_cursor) update in
      (
        (db.fetch_update t (key_bytes latest_block_cursor) update).1,
        rw (now, newer_value-advance old c v vc) refl,
        written,
        rw written (read_cursor-stored (advance old c) (advance-IsCursor old c v vc)),
        get-fetch_update db t (key_bytes latest_block_cursor) update,
      )
