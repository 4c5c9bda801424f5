-- ===== src/Headers/Compact.antt =====
-- indexer-lib/src/database/headers/block_compact_headers.rs
use local_rusty_indexer_poc.Prelude.{
  ℕ, Option, none, some, [], ◌∷◌, length, ◌==◌, if◌then◌else◌, Result, ok, err,
  invalid_value_length,
}
use local_rusty_indexer_poc.Bytes.{Bytes}
use local_rusty_indexer_poc.Bytes.Endian.{to_le_bytes, from_le_bytes}
use local_rusty_indexer_poc.Keys.Layout.{slice, join}
use local_rusty_indexer_poc.Store.{Fjall}

pub record CompactHeaderDb : Type 0 where
  pub blue_work : Bytes
  pub daa_score : Bytes

-- `CompactHeader` of indexer-lib/src/lib.rs
pub record CompactHeader : Type 0 where
  pub blue_work : ℕ
  pub daa_score : ℕ

-- `From<CompactHeaderDb> for CompactHeader`
abbrev pub from_db : CompactHeaderDb → CompactHeader
from_db value = record {
  blue_work = from_le_bytes value.blue_work;
  daa_score = from_le_bytes value.daa_score;
}

unfoldable pub header_bytes : CompactHeaderDb → Bytes
header_bytes h = join (h.blue_work ∷ h.daa_score ∷ [])

abbrev pub header_of : Bytes → CompactHeaderDb
header_of b = record { blue_work = slice 0 24 b; daa_score = slice 24 8 b }

unfoldable pub read_header : Option Bytes → Result (Option CompactHeaderDb)
read_header none = ok none
read_header (some bytes) =
    if length bytes == 32 then ok (some (header_of bytes)) else err invalid_value_length

abbrev map_ok {ℓ} : {A B : Type ℓ} → (A → B) → Result (Option A) → Result (Option B)
map_ok f (ok none) = ok none
map_ok f (ok (some a)) = ok (some (f a))
map_ok f (err e) = err e

module _ (db : Fjall) where
  open db use {Tree, get, insert, remove}

  unfoldable pub insert_compact_header : Tree → Bytes → ℕ → ℕ → Tree
  unfolding header_bytes
  insert_compact_header t block_hash blue_work daa_score = insert t block_hash (
      header_bytes
        (record { blue_work = to_le_bytes 24 blue_work; daa_score = to_le_bytes 8 daa_score }))

  unfoldable pub get_compact_header_rtx : Tree → Bytes → Result (Option CompactHeaderDb)
  unfolding read_header
  get_compact_header_rtx t block_hash = read_header (get t block_hash)

  unfoldable pub get_compact_header : Tree → Bytes → Result (Option CompactHeader)
  unfolding get_compact_header_rtx
  get_compact_header t block_hash = map_ok from_db (get_compact_header_rtx t block_hash)

  unfoldable pub get_blue_work : Tree → Bytes → Result (Option ℕ)
  unfolding get_compact_header_rtx
  get_blue_work t block_hash =
      map_ok (λ (h : CompactHeaderDb). from_le_bytes h.blue_work)
        (get_compact_header_rtx t block_hash)

  unfoldable pub get_daa_score : Tree → Bytes → Result (Option ℕ)
  unfolding get_compact_header_rtx
  get_daa_score t block_hash =
      map_ok (λ (h : CompactHeaderDb). from_le_bytes h.daa_score)
        (get_compact_header_rtx t block_hash)

  unfoldable pub remove_header : Tree → Bytes → Tree
  remove_header t block_hash = remove t block_hash
