-- ===== src/Processing/TxIds.antt =====
-- `TxIdsSliceView` of indexer-lib/src/database.rs: a byte string read as 32-byte ids.
use local_rusty_indexer_poc.Prelude.{
  ℕ, ◌/◌, ◌%◌, ◌≡◌, List, arith, length, All, ◌==◌, if◌then◌else◌, Result, ok, err, ◌>>=◌, Option,
  none, some, panicked,
}
use local_rusty_indexer_poc.Bytes.{Bytes}
use local_rusty_indexer_poc.Keys.Layout.{join, chunks, length-join_width, chunks-join}

-- `TxIdsSliceView::new`: the assertion on the length
unfoldable pub new : Bytes → Result Bytes
new bytes = if length bytes % 32 == 0 then ok bytes else err panicked

-- `as_tx_ids`: as many whole chunks of 32 bytes as there are
unfoldable pub as_tx_ids : Bytes → List Bytes
unfolding chunks
as_tx_ids bytes = chunks 32 (length bytes / 32) bytes

abbrev pub len : Bytes → ℕ
len bytes = length bytes / 32

abbrev pub IsId : Bytes → Type 0
IsId b = length b ≡ 32

-- the view of a value that may be absent
unfoldable pub view : Option Bytes → Result (Option Bytes)
unfolding new
view none = ok none
view (some v) = do bytes ← new v; ok (some bytes)

-- Ids stored by `as_flattened` are read back in order.
pub as_tx_ids-join : (ids : List Bytes) → All IsId ids → as_tx_ids (join ids) ≡ ids
unfolding as_tx_ids
as_tx_ids-join ids h =
    let count : length (join ids) / 32 ≡ length ids = omega (arith, length-join_width 32 ids h) in
    rw count (chunks-join 32 ids h)

pub new-join : (ids : List Bytes) → All IsId ids → new (join ids) ≡ ok (join ids)
unfolding new
new-join ids h =
    let whole : length (join ids) % 32 ≡ 0 = omega (arith, length-join_width 32 ids h) in rw whole
