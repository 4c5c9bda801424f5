-- ===== src/Processing/Acceptance.antt =====
-- indexer-lib/src/database/processing/acceptance.rs
use local_rusty_indexer_poc.Prelude.{
  ℕ, Option, none, some, List, [], ◌∷◌, map, length, is_empty, replicate, ◌==◌, if◌then◌else◌,
  Result, ok, err, ◌>>=◌, invalid_partition, invalid_key_length, panicked,
}
use local_rusty_indexer_poc.Bytes.{Bytes}
use local_rusty_indexer_poc.Bytes.Endian.{to_be_bytes}
use local_rusty_indexer_poc.Store.{Fjall, Entry}
use local_rusty_indexer_poc.Store.Scan.{remove_all}
use local_rusty_indexer_poc.Keys.{
  HandshakeKeyForResolution, ContextualMessageKeyForResolution, PaymentKeyForResolution,
  handshake_bytes, contextual_bytes, payment_bytes,
}
use local_rusty_indexer_poc.Keys.Layout.{slice, byte_at, join}
use local_rusty_indexer_poc.Processing.{
  PartitionId, as_u8, handshake_by_sender, contextual_message_by_sender, payment_by_sender,
  message_partition,
}

pub data AcceptingBlockResolutionData : Type 0 where
  handshake_key contextual_message_key payment_key : Bytes → AcceptingBlockResolutionData
  no_data : AcceptingBlockResolutionData

pub record AcceptanceTxKey : Type 0 where
  pub tx_id : Bytes
  pub accepted_at_daa : Bytes
  pub accepted_by_block_hash : Bytes
  pub partition_id : ℕ

unfoldable pub acceptance_key_bytes : AcceptanceTxKey → Bytes
acceptance_key_bytes k =
    join (k.tx_id ∷ k.accepted_at_daa ∷ k.accepted_by_block_hash ∷ (k.partition_id ∷ []) ∷ [])

-- `LikeAcceptanceTxKey::deref`, on 73 bytes
abbrev pub acceptance_key_of : Bytes → AcceptanceTxKey
acceptance_key_of b = record {
  tx_id = slice 0 32 b;
  accepted_at_daa = slice 32 8 b;
  accepted_by_block_hash = slice 40 32 b;
  partition_id = byte_at 72 b;
}

-- `accepted_at_daa.unwrap_or_default().to_be_bytes()`
abbrev pub daa_or_default : Option ℕ → Bytes
daa_or_default none = to_be_bytes 8 0
daa_or_default (some daa) = to_be_bytes 8 daa

-- `accepted_by_block_hash.unwrap_or_default()`
abbrev pub hash_or_default : Option Bytes → Bytes
hash_or_default none = replicate 32 0
hash_or_default (some h) = h

abbrev pub acceptance_key : Bytes → Option ℕ → Option Bytes → PartitionId → AcceptanceTxKey
acceptance_key tx_id daa hash p = record {
  tx_id = tx_id;
  accepted_at_daa = daa_or_default daa;
  accepted_by_block_hash = hash_or_default hash;
  partition_id = as_u8 p;
}

-- the bytes that `insert_wtx` stores
unfoldable pub resolution_bytes : AcceptingBlockResolutionData → Bytes
resolution_bytes no_data = []
resolution_bytes (handshake_key hk) = hk
resolution_bytes (contextual_message_key cmk) = cmk
resolution_bytes (payment_key pmk) = pmk

-- the `match` on the partition of a value that is not empty; a handshake view checks its length
unfoldable pub resolution_of : PartitionId → Bytes → Result AcceptingBlockResolutionData
resolution_of handshake_by_sender v = if length v == 108 then ok (handshake_key v) else err panicked
resolution_of contextual_message_by_sender v = ok (contextual_message_key v)
resolution_of payment_by_sender v = ok (payment_key v)
resolution_of _ v = err invalid_partition

-- the closure of `get_by_tx_id`: the key's bytes with the data
unfoldable pub decode : Entry → Result (Bytes × AcceptingBlockResolutionData)
unfolding message_partition resolution_of
decode (key, value) =
    if length key == 73
    then (do
      partition ← message_partition (byte_at 72 key)
      resolution ← if is_empty value then ok no_data else resolution_of partition value
      ok (key, resolution))
    else err invalid_key_length

module _ (db : Fjall) where
  open db use {Tree, get, insert, remove, prefix, fetch_update}

  unfoldable pub insert_handshake_wtx :
      Tree → Bytes → HandshakeKeyForResolution → Option ℕ → Option Bytes → Tree
  insert_handshake_wtx t tx_id key daa hash =
      insert t (acceptance_key_bytes (acceptance_key tx_id daa hash handshake_by_sender))
        (handshake_bytes key)

  unfoldable pub insert_contextual_message_wtx :
      Tree → Bytes → ContextualMessageKeyForResolution → Option ℕ → Option Bytes → Tree
  insert_contextual_message_wtx t tx_id key daa hash =
      insert t (acceptance_key_bytes (acceptance_key tx_id daa hash contextual_message_by_sender))
        (contextual_bytes key)

  unfoldable pub insert_payment_wtx :
      Tree → Bytes → PaymentKeyForResolution → Option ℕ → Option Bytes → Tree
  insert_payment_wtx t tx_id key daa hash =
      insert t (acceptance_key_bytes (acceptance_key tx_id daa hash payment_by_sender))
        (payment_bytes key)

  unfoldable pub insert_wtx : Tree → AcceptanceTxKey → AcceptingBlockResolutionData → Tree
  insert_wtx t key value = insert t (acceptance_key_bytes key) (resolution_bytes value)

  unfoldable pub raw_keys_by_txid : Tree → Bytes → List Bytes
  raw_keys_by_txid t tx_id = map (λ (e : Entry). e.0) (prefix t tx_id)

  -- `update_fetch` with a closure that always gives the empty value
  unfoldable pub resolve_by_raw_keys : Tree → List Bytes → Tree
  resolve_by_raw_keys t [] = t
  resolve_by_raw_keys t (k ∷ ks) = resolve_by_raw_keys (fetch_update t k (λ _. some [])).1 ks

  unfoldable pub get_by_tx_id : Tree → Bytes → List (Result (Bytes × AcceptingBlockResolutionData))
  unfolding decode
  get_by_tx_id t tx_id = map decode (prefix t tx_id)

  unfoldable pub remove_key : Tree → Bytes → Tree
  remove_key t key = remove t key

  unfoldable pub remove_by_tx_id : Tree → Bytes → Tree
  remove_by_tx_id t tx_id = remove_all db t (map (λ (e : Entry). e.0) (prefix t tx_id))
