-- ===== src/Processing/Pending.antt =====
-- indexer-lib/src/database/processing/pending_sender_resolution.rs
use local_rusty_indexer_poc.Prelude.{
  ℕ, ◌-◌, Bool, Option, none, some, List, [], ◌∷◌, ◌++◌, map, length, is_empty, set, not, leb, ◌==◌,
  if◌then◌else◌, Result, ok, err, ◌>>=◌, invalid_partition, invalid_key_length, panicked,
}
use local_rusty_indexer_poc.Bytes.{Bytes}
use local_rusty_indexer_poc.Bytes.Endian.{to_be_bytes, from_be_bytes}
use local_rusty_indexer_poc.Store.{Fjall, Entry}
use local_rusty_indexer_poc.Store.Scan.{remove_all}
use local_rusty_indexer_poc.Keys.{
  HandshakeKeyForResolution, ContextualMessageKeyForResolution, PaymentKeyForResolution,
  handshake_bytes, contextual_bytes, payment_bytes, handshake_from_bytes, contextual_from_bytes,
  payment_from_bytes, SenderResolutionLikeKey, handshake_key, contextual_message_key, payment_key,
}
use local_rusty_indexer_poc.Keys.Layout.{slice, byte_at, join}
use local_rusty_indexer_poc.Processing.{
  PartitionId, as_u8, handshake_by_sender, contextual_message_by_sender, payment_by_sender,
  message_partition,
}

pub record PendingResolutionKey : Type 0 where
  pub accepting_daa_score : Bytes
  pub tx_id : Bytes
  pub partition_type : ℕ

unfoldable pub pending_key_bytes : PendingResolutionKey → Bytes
pending_key_bytes k = join (k.accepting_daa_score ∷ k.tx_id ∷ (k.partition_type ∷ []) ∷ [])

-- the struct of 41 bytes
abbrev pub pending_key_of : Bytes → PendingResolutionKey
pending_key_of b = record {
  accepting_daa_score = slice 0 8 b;
  tx_id = slice 8 32 b;
  partition_type = byte_at 40 b;
}

abbrev pub pending_key : ℕ → Bytes → PartitionId → PendingResolutionKey
pending_key daa tx_id p = record {
  accepting_daa_score = to_be_bytes 8 daa;
  tx_id = tx_id;
  partition_type = as_u8 p;
}

-- the first 40 bytes of a key: the score and the id
abbrev pub tx_prefix : ℕ → Bytes → Bytes
tx_prefix daa tx_id = to_be_bytes 8 daa ++ tx_id

pub record PendingSenderResolution : Type 0 where
  pub accepting_daa_score : ℕ
  pub tx_id : Bytes
  pub partition_type : PartitionId
  pub like_key : SenderResolutionLikeKey

-- the view of a stored value; the view of a handshake checks its length
unfoldable pub like_key_of : PartitionId → Bytes → Result SenderResolutionLikeKey
like_key_of handshake_by_sender v = if length v == 108 then ok (handshake_key v) else err panicked
like_key_of contextual_message_by_sender v = ok (contextual_message_key v)
like_key_of payment_by_sender v = ok (payment_key v)
like_key_of _ v = err invalid_partition

-- one round of the collecting loop of `remove_pending`, on a key of 41 bytes
unfoldable pub pending_entry : Entry → Result (PartitionId × SenderResolutionLikeKey)
unfolding message_partition like_key_of
pending_entry (key, value) = do
  partition_type ← message_partition (byte_at 40 key)
  like_key ← like_key_of partition_type value
  ok (partition_type, like_key)

-- the collecting loop: keys of another length are passed over
unfoldable pub collect :
    List Entry → Result (List PendingResolutionKey × List (PartitionId × SenderResolutionLikeKey))
unfolding pending_entry
collect [] = ok ([], [])
collect ((key, value) ∷ items) =
    let rest = collect items in
    if length key == 41
    then (do
      result ← pending_entry (key, value)
      (keys, results) ← rest
      ok (pending_key_of key ∷ keys, result ∷ results))
    else rest

-- `keys_to_process` of `decrement_attempt_counts_by_transaction`
unfoldable pub collect_keys : List Entry → List PendingResolutionKey
collect_keys [] = []
collect_keys ((key, value) ∷ items) =
    if length key == 41 then pending_key_of key ∷ collect_keys items else collect_keys items

-- the attempt count that a view reads
unfoldable pub attempt_count : SenderResolutionLikeKey → Result ℕ
attempt_count (handshake_key b) = do key ← handshake_from_bytes b; ok key.attempt_count
attempt_count (contextual_message_key b) = do key ← contextual_from_bytes b; ok key.attempt_count
attempt_count (payment_key b) = do key ← payment_from_bytes b; ok key.attempt_count

-- the write of the new count, at the offset of the field
unfoldable pub set_attempt_count : PartitionId → Bytes → ℕ → Option Bytes
set_attempt_count handshake_by_sender v n = some (if leb 108 (length v) then set v 107 n else v)
set_attempt_count contextual_message_by_sender v n =
    some (if leb 90 (length v) then set v 89 n else v)
set_attempt_count payment_by_sender v n = some (if leb 108 (length v) then set v 107 n else v)
set_attempt_count _ v n = none

-- the closure of the decrement on a value that is there: the new value, and the entry that it
-- gives up on
unfoldable pub decremented :
    PartitionId → Bytes → Result (Option Bytes × Option (PartitionId × SenderResolutionLikeKey))
unfolding like_key_of attempt_count set_attempt_count
decremented p v = do
  current_like_key ← like_key_of p v
  count ← attempt_count current_like_key
  let new_attempt_count = count - 1
  (if new_attempt_count == 0
      then ok (none, some (p, current_like_key))
      else ok (set_attempt_count p v new_attempt_count, none))

-- the closure of `get_all_pending`
unfoldable pub decode_pending : Entry → Result PendingSenderResolution
unfolding pending_entry
decode_pending (key, value) =
    if length key == 41
    then (do
      (partition_type, like_key) ← pending_entry (key, value)
      ok (record {
        accepting_daa_score = from_be_bytes (slice 0 8 key);
        tx_id = slice 8 32 key;
        partition_type = partition_type;
        like_key = like_key;
      }))
    else err invalid_key_length

unfoldable pub decode_pending_key : Bytes → Result PendingResolutionKey
decode_pending_key key =
    if length key == 41 then ok (pending_key_of key) else err invalid_key_length

abbrev some_to_list {ℓ} : {A : Type ℓ} → Option A → List A
some_to_list none = []
some_to_list (some a) = a ∷ []

module _ (db : Fjall) where
  open db use {Tree, get, insert, remove, iter, prefix, fetch_update}

  unfoldable pub mark_handshake_pending : Tree → ℕ → Bytes → HandshakeKeyForResolution → Tree
  mark_handshake_pending t accepting_daa_score tx_id key =
      insert t (pending_key_bytes (pending_key accepting_daa_score tx_id handshake_by_sender))
        (handshake_bytes key)

  unfoldable pub mark_contextual_message_pending :
      Tree → ℕ → Bytes → ContextualMessageKeyForResolution → Tree
  mark_contextual_message_pending t accepting_daa_score tx_id key =
      insert t
        (pending_key_bytes (pending_key accepting_daa_score tx_id contextual_message_by_sender))
        (contextual_bytes key)

  unfoldable pub mark_payment_pending : Tree → ℕ → Bytes → PaymentKeyForResolution → Tree
  mark_payment_pending t accepting_daa_score tx_id key =
      insert t (pending_key_bytes (pending_key accepting_daa_score tx_id payment_by_sender))
        (payment_bytes key)

  unfoldable pub remove_pending :
      Tree → ℕ → Bytes → Result (List (PartitionId × SenderResolutionLikeKey) × Tree)
  unfolding collect
  remove_pending t accepting_daa_score tx_id = do
    (keys_to_remove, results) ← collect (prefix t (tx_prefix accepting_daa_score tx_id))
    ok (results, remove_all db t (map pending_key_bytes keys_to_remove))

  unfoldable pub get_all_pending : Tree → List (Result PendingSenderResolution)
  unfolding decode_pending
  get_all_pending t = map decode_pending (iter t)

  unfoldable pub get_all_pending_keys : Tree → List (Result PendingResolutionKey)
  unfolding decode_pending_key
  get_all_pending_keys t = map (λ (e : Entry). decode_pending_key e.0) (iter t)

  unfoldable pub has_pending : Tree → ℕ → Bytes → Bool
  has_pending t accepting_daa_score tx_id =
      not (is_empty (prefix t (tx_prefix accepting_daa_score tx_id)))

  -- one key: what the closure gives up on, and the tree after `fetch_update`
  unfoldable pub decrement_entry :
      Tree → PendingResolutionKey → Result (Option (PartitionId × SenderResolutionLikeKey) × Tree)
  unfolding message_partition decremented
  decrement_entry t key = elim (message_partition key.partition_type) [
    | err _ ↦ ok (none, t)
    | ok p ↦ elim (get t (pending_key_bytes key)) [
      | none ↦ ok (none, (fetch_update t (pending_key_bytes key) (λ _. none)).1)
      | some v ↦ do
        (value, removed) ← decremented p v
        ok (removed, (fetch_update t (pending_key_bytes key) (λ _. value)).1)
    ]
  ]

  unfoldable pub decrement_entries :
      Tree
      → List PendingResolutionKey
      → Result (List (PartitionId × SenderResolutionLikeKey) × Tree)
  unfolding decrement_entry
  decrement_entries t [] = ok ([], t)
  decrement_entries t (key ∷ keys) = do
    (removed, t') ← decrement_entry t key
    (rest, t'') ← decrement_entries t' keys
    ok (some_to_list removed ++ rest, t'')

  unfoldable pub decrement_attempt_counts_by_transaction :
      Tree → ℕ → Bytes → Result (List (PartitionId × SenderResolutionLikeKey) × Tree)
  unfolding collect_keys decrement_entries
  decrement_attempt_counts_by_transaction t accepting_daa_score tx_id =
      decrement_entries t (collect_keys (prefix t (tx_prefix accepting_daa_score tx_id)))
