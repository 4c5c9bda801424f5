-- ===== src/Headers/DaaIndex.antt =====
-- indexer-lib/src/database/headers/daa_index.rs
use local_rusty_indexer_poc.Prelude.{
  ℕ, Option, none, some, List, [], ◌++◌, map, length, is_empty, last?, not, ◌==◌, if◌then◌else◌,
  Result, ok, err, ◌>>=◌, invalid_key_length, unexpected_value,
}
use local_rusty_indexer_poc.Bytes.{Bytes}
use local_rusty_indexer_poc.Bytes.Endian.{to_be_bytes, from_be_bytes}
use local_rusty_indexer_poc.Keys.Layout.{slice}
use local_rusty_indexer_poc.Store.{Fjall, Entry}

unfoldable pub make_key : ℕ → Bytes → Bytes
make_key daa_score block_hash = to_be_bytes 8 daa_score ++ block_hash

-- the closure of `iter_lt`
unfoldable pub decode_index : Entry → Result (ℕ × Bytes)
decode_index (key, value) =
    if not (length key == 40)
    then err invalid_key_length
    else if not (is_empty value)
    then err unexpected_value
    else ok (from_be_bytes (slice 0 8 key), slice 8 32 key)

-- `u64::from_be_bytes(k.as_ref().try_into()?)`: the conversion to 8 bytes
unfoldable pub score_of_key : Bytes → Result ℕ
score_of_key k = if length k == 8 then ok (from_be_bytes k) else err invalid_key_length

-- `transpose` of the last entry, if there is one
unfoldable pub latest : Option Entry → Result (Option ℕ)
unfolding score_of_key
latest none = ok none
latest (some (k, v)) = do daa ← score_of_key k; ok (some daa)

module _ (db : Fjall) where
  open db use {Tree, insert, remove, iter, range_to}

  unfoldable pub insert_index : Tree → ℕ → Bytes → Tree
  unfolding make_key
  insert_index t daa_score block_hash = insert t (make_key daa_score block_hash) []

  unfoldable pub delete : Tree → ℕ → Bytes → Tree
  unfolding make_key
  delete t daa_score block_hash = remove t (make_key daa_score block_hash)

  unfoldable pub iter_lt : Tree → ℕ → List (Result (ℕ × Bytes))
  unfolding decode_index
  iter_lt t max_daa = map decode_index (range_to t (to_be_bytes 8 max_daa))

  -- `last_key_value` is the last entry in key order
  unfoldable pub latest_daa : Tree → Result (Option ℕ)
  unfolding latest
  latest_daa t = latest (last? (iter t))
