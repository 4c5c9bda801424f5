-- ===== src/Headers/Gaps.antt =====
-- indexer-lib/src/database/headers/block_gaps.rs
use local_rusty_indexer_poc.Prelude.{
  ℕ, List, [], ◌∷◌, map, length, ◌==◌, if◌then◌else◌, Result, ok, err, invalid_key_length,
}
use local_rusty_indexer_poc.Bytes.{Bytes}
use local_rusty_indexer_poc.Bytes.Endian.{to_be_bytes, from_be_bytes}
use local_rusty_indexer_poc.Keys.Layout.{slice, join}
use local_rusty_indexer_poc.Metadata.{Cursor}
use local_rusty_indexer_poc.Store.{Fjall, Entry}

pub record BlockGapKey : Type 0 where
  pub from_daa_score : Bytes
  pub from_blue_work : Bytes
  pub from_block_hash : Bytes
  pub to_blue_work : Bytes
  pub to_block_hash : Bytes
  pub to_daa_score : Bytes

pub record BlockGap : Type 0 where
  pub from_daa_score : ℕ
  pub from_blue_work : ℕ
  pub from_block_hash : Bytes
  pub to_blue_work : ℕ
  pub to_block_hash : Bytes
  pub to_daa_score : ℕ

abbrev pub from_cursors : Cursor → Cursor → BlockGap
from_cursors a b = record {
  from_daa_score = a.daa_score;
  from_blue_work = a.blue_work;
  from_block_hash = a.hash;
  to_blue_work = b.blue_work;
  to_block_hash = b.hash;
  to_daa_score = b.daa_score;
}

-- the literal that each of the four writers builds
abbrev pub gap_key : BlockGap → BlockGapKey
gap_key gap = record {
  from_daa_score = to_be_bytes 8 gap.from_daa_score;
  from_blue_work = to_be_bytes 24 gap.from_blue_work;
  from_block_hash = gap.from_block_hash;
  to_blue_work = to_be_bytes 24 gap.to_blue_work;
  to_block_hash = gap.to_block_hash;
  to_daa_score = to_be_bytes 8 gap.to_daa_score;
}

unfoldable pub gap_key_bytes : BlockGapKey → Bytes
gap_key_bytes k = join (
    k.from_daa_score ∷ k.from_blue_work ∷ k.from_block_hash ∷ k.to_blue_work ∷ k.to_block_hash
    ∷ k.to_daa_score ∷ [])

abbrev pub gap_key_of : Bytes → BlockGapKey
gap_key_of b = record {
  from_daa_score = slice 0 8 b;
  from_blue_work = slice 8 24 b;
  from_block_hash = slice 32 32 b;
  to_blue_work = slice 64 24 b;
  to_block_hash = slice 88 32 b;
  to_daa_score = slice 120 8 b;
}

abbrev pub gap_of : BlockGapKey → BlockGap
gap_of k = record {
  from_daa_score = from_be_bytes k.from_daa_score;
  from_blue_work = from_be_bytes k.from_blue_work;
  from_block_hash = k.from_block_hash;
  to_blue_work = from_be_bytes k.to_blue_work;
  to_block_hash = k.to_block_hash;
  to_daa_score = from_be_bytes k.to_daa_score;
}

-- the closure of the two scans
unfoldable pub decode_gap : Entry → Result BlockGap
decode_gap (key, value) =
    if length key == 128 then ok (gap_of (gap_key_of key)) else err invalid_key_length

module _ (db : Fjall) where
  open db use {Tree, insert, remove, iter, range_from}

  unfoldable pub add_gap : Tree → BlockGap → Tree
  unfolding gap_key_bytes
  add_gap t gap = insert t (gap_key_bytes (gap_key gap)) []

  unfoldable pub remove_gap : Tree → BlockGap → Tree
  unfolding gap_key_bytes
  remove_gap t gap = remove t (gap_key_bytes (gap_key gap))

  unfoldable pub get_all_gaps : Tree → List (Result BlockGap)
  unfolding decode_gap
  get_all_gaps t = map decode_gap (iter t)

  unfoldable pub get_all_gaps_since_daa : Tree → ℕ → List (Result BlockGap)
  unfolding decode_gap
  get_all_gaps_since_daa t since_daa = map decode_gap (range_from t (to_be_bytes 8 since_daa))

  unfoldable pub add_gaps_batch : Tree → List BlockGap → Tree
  unfolding add_gap
  add_gaps_batch t [] = t
  add_gaps_batch t (gap ∷ gaps) = add_gaps_batch (add_gap t gap) gaps
