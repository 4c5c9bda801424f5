-- ===== src/Metadata.antt =====
-- indexer-lib/src/database/metadata.rs, and `Cursor` of indexer-lib/src/historical_syncer.rs
pub mod Latest
use local_rusty_indexer_poc.Prelude.{
  ℕ, Bool, Option, none, some, List, [], ◌∷◌, length, ◌==◌, if◌then◌else◌, Result, ok, err, ◌>>=◌,
  invalid_value_length, panicked,
}
use local_rusty_indexer_poc.Bytes.{Bytes, ◌=ᵇ◌}
use local_rusty_indexer_poc.Bytes.Endian.{
  to_be_bytes, from_be_bytes, to_le_bytes, from_le_bytes, lex_ltb,
}
use local_rusty_indexer_poc.Keys.Layout.{slice, join}
use local_rusty_indexer_poc.Store.{Fjall}

-- a position in the block DAG
pub record Cursor : Type 0 where
  pub daa_score : ℕ
  pub blue_work : ℕ
  pub hash : Bytes

pub data MetadataKey : Type 0 where
  latest_block_cursor latest_accepting_block_cursor : MetadataKey

-- `[key as u8]`
abbrev pub key_bytes : MetadataKey → Bytes
key_bytes latest_block_cursor = 0 ∷ []
key_bytes latest_accepting_block_cursor = 1 ∷ []

pub record CursorValue : Type 0 where
  pub blue_work : Bytes
  pub block_hash : Bytes
  pub daa_score : Bytes

unfoldable pub value_bytes : CursorValue → Bytes
value_bytes v = join (v.blue_work ∷ v.block_hash ∷ v.daa_score ∷ [])

abbrev pub value_of : Bytes → CursorValue
value_of b = record {
  blue_work = slice 0 24 b;
  block_hash = slice 24 32 b;
  daa_score = slice 56 8 b;
}

-- blue work in big-endian order, the score in little-endian order
abbrev pub cursor_value : Cursor → CursorValue
cursor_value c = record {
  blue_work = to_be_bytes 24 c.blue_work;
  block_hash = c.hash;
  daa_score = to_le_bytes 8 c.daa_score;
}

abbrev pub cursor_of : CursorValue → Cursor
cursor_of v = record {
  daa_score = from_le_bytes v.daa_score;
  blue_work = from_be_bytes v.blue_work;
  hash = v.block_hash;
}

-- the derived `Ord` of `CursorValue`: field by field
unfoldable pub value_ltb : CursorValue → CursorValue → Bool
value_ltb a b =
    if a.blue_work =ᵇ b.blue_work
    then (if a.block_hash =ᵇ b.block_hash
        then lex_ltb a.daa_score b.daa_score
        else lex_ltb a.block_hash b.block_hash)
    else lex_ltb a.blue_work b.blue_work

-- the closure of `set_latest_block_cursor`: the larger of the two values; a stored value of
-- another length makes the cast panic
unfoldable pub newer_value : CursorValue → Option Bytes → Result Bytes
unfolding value_ltb value_bytes
newer_value value none = ok (value_bytes value)
newer_value value (some old_value) =
    if length old_value == 64
    then ok (if value_ltb (value_of old_value) value then value_bytes value else old_value)
    else err panicked

-- the reading half, the same in each getter of the source
unfoldable pub read_cursor : Option Bytes → Result (Option Cursor)
read_cursor none = ok none
read_cursor (some bytes) =
    if length bytes == 64 then ok (some (cursor_of (value_of bytes))) else err invalid_value_length

module _ (db : Fjall) where
  open db use {Tree, get, insert, remove, fetch_update}

  unfoldable pub set_latest_block_cursor : Tree → Cursor → Result Tree
  unfolding newer_value
  set_latest_block_cursor t cursor = do
    value ← newer_value (cursor_value cursor) (get t (key_bytes latest_block_cursor))
    ok (fetch_update t (key_bytes latest_block_cursor) (λ _. some value)).1

  unfoldable pub get_latest_block_cursor : Tree → Result (Option Cursor)
  unfolding read_cursor
  get_latest_block_cursor t = read_cursor (get t (key_bytes latest_block_cursor))

  unfoldable pub set_latest_accepting_block_cursor : Tree → Cursor → Tree
  unfolding value_bytes
  set_latest_accepting_block_cursor t cursor =
      insert t (key_bytes latest_accepting_block_cursor) (value_bytes (cursor_value cursor))

  unfoldable pub get_latest_accepting_block_cursor : Tree → Result (Option Cursor)
  unfolding read_cursor
  get_latest_accepting_block_cursor t =
      read_cursor (get t (key_bytes latest_accepting_block_cursor))

  unfoldable pub remove_latest_block_cursor : Tree → Tree
  remove_latest_block_cursor t = remove t (key_bytes latest_block_cursor)

  unfoldable pub remove_latest_accepting_block_cursor : Tree → Tree
  remove_latest_accepting_block_cursor t = remove t (key_bytes latest_accepting_block_cursor)
