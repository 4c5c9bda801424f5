-- ===== src/Processing/UnknownDaa.antt =====
-- indexer-lib/src/database/processing/unknown_daa_scores.rs
use local_rusty_indexer_poc.Prelude.{
  ℕ, ◌-◌, ◌/◌, ◌%◌, Bool, true, false, Option, none, some, List, [], ◌∷◌, ◌++◌, map, length,
  is_empty, drop, replicate, leb, ◌==◌, if◌then◌else◌, Result, ok, err, ◌>>=◌, invalid_partition,
  invalid_value_length, invalid_key_length, panicked,
}
use local_rusty_indexer_poc.Bytes.{Bytes}
use local_rusty_indexer_poc.Store.{Fjall, Entry}
use local_rusty_indexer_poc.Keys.{
  HandshakeKeyForResolution, ContextualMessageKeyForResolution, PaymentKeyForResolution,
  handshake_bytes, contextual_bytes, payment_bytes, DaaResolutionLikeKey, handshake_key,
  contextual_message_key, payment_key,
}
use local_rusty_indexer_poc.Keys.Layout.{slice, byte_at, join, chunks}
use local_rusty_indexer_poc.Processing.Skip.{is_some}

-- `DaaResolutionPartitionType`, with its own discriminants
pub data DaaResolutionPartitionType : Type 0 where
  handshake_by_sender contextual_message_by_sender payment_by_sender : DaaResolutionPartitionType

abbrev pub type_u8 : DaaResolutionPartitionType → ℕ
type_u8 handshake_by_sender = 0
type_u8 contextual_message_by_sender = 1
type_u8 payment_by_sender = 2

-- MAX_RESOLUTION_KEY_SIZE: the larger of 108 and 90
abbrev pub max_resolution_key_size : ℕ
max_resolution_key_size = 108

-- `size_of::<PaddedResolutionEntry>()`
abbrev pub entry_size : ℕ
entry_size = 141

pub record PaddedResolutionEntry : Type 0 where
  pub tx_id : Bytes
  pub partition_type : ℕ
  pub resolution_key_data : Bytes

unfoldable pub entry_bytes : PaddedResolutionEntry → Bytes
entry_bytes e = join (e.tx_id ∷ (e.partition_type ∷ []) ∷ e.resolution_key_data ∷ [])

abbrev pub entry_of : Bytes → PaddedResolutionEntry
entry_of b = record {
  tx_id = slice 0 32 b;
  partition_type = byte_at 32 b;
  resolution_key_data = slice 33 108 b;
}

-- the view of a handshake checks its length
unfoldable pub handshake_like : Bytes → Result DaaResolutionLikeKey
handshake_like v = if length v == 108 then ok (handshake_key v) else err panicked

unfoldable pub get_resolution_key : PaddedResolutionEntry → Result DaaResolutionLikeKey
unfolding handshake_like
get_resolution_key e =
    if e.partition_type == type_u8 handshake_by_sender
    then handshake_like (slice 0 108 e.resolution_key_data)
    else if e.partition_type == type_u8 contextual_message_by_sender
    then ok (contextual_message_key (slice 0 90 e.resolution_key_data))
    else if e.partition_type == type_u8 payment_by_sender
    then ok (payment_key (slice 0 108 e.resolution_key_data))
    else err invalid_partition

-- `ResolutionEntries`: one byte of attempts, then the entries. The wrapper is its bytes.
unfoldable pub new_entries : ℕ → Bytes
new_entries attempt_count = attempt_count ∷ []

unfoldable pub with_data : ℕ → Bytes → Bytes
with_data attempt_count bytes = attempt_count ∷ bytes

unfoldable pub entries_attempt_count : Bytes → ℕ
entries_attempt_count bts = byte_at 0 bts

unfoldable pub as_entry_slice : Bytes → Result (List PaddedResolutionEntry)
as_entry_slice bts =
    if is_empty bts
    then err invalid_value_length
    else if length (drop 1 bts) % entry_size == 0
    then ok (map entry_of (chunks entry_size (length (drop 1 bts) / entry_size) (drop 1 bts)))
    else err invalid_value_length

unfoldable pub entries_is_empty : Bytes → Bool
entries_is_empty bts = leb (length bts) 1

unfoldable pub entries_len : Bytes → ℕ
entries_len bts = if leb (length bts) 1 then 0 else (length bts - 1) / entry_size

-- `to_mutable` indexes from 1, which panics on no bytes
unfoldable pub to_mutable : Bytes → Result Bytes
unfolding with_data entries_attempt_count
to_mutable bts =
    if is_empty bts then err panicked else ok (with_data (entries_attempt_count bts) (drop 1 bts))

-- zeros up to the size of the largest key
abbrev pub padded : Bytes → Bytes
padded key = key ++ replicate (max_resolution_key_size - length key) 0

abbrev pub padded_entry : Bytes → DaaResolutionPartitionType → Bytes → PaddedResolutionEntry
padded_entry tx_id p key = record {
  tx_id = tx_id;
  partition_type = type_u8 p;
  resolution_key_data = padded key;
}

unfoldable pub push_handshake : Bytes → Bytes → HandshakeKeyForResolution → Bytes
push_handshake bts tx_id key =
    bts ++ entry_bytes (padded_entry tx_id handshake_by_sender (handshake_bytes key))

unfoldable pub push_contextual_message : Bytes → Bytes → ContextualMessageKeyForResolution → Bytes
push_contextual_message bts tx_id key =
    bts ++ entry_bytes (padded_entry tx_id contextual_message_by_sender (contextual_bytes key))

unfoldable pub push_payment : Bytes → Bytes → PaymentKeyForResolution → Bytes
push_payment bts tx_id key =
    bts ++ entry_bytes (padded_entry tx_id payment_by_sender (payment_bytes key))

-- the bytes after the call; the count that it returns is `entries_attempt_count` of them
unfoldable pub decrement_attempt_count : Bytes → Bytes
decrement_attempt_count [] = []
decrement_attempt_count (count ∷ bts) = (count - 1) ∷ bts

unfoldable pub extend_from_slice : Bytes → List PaddedResolutionEntry → Bytes
extend_from_slice bts entries = bts ++ join (map entry_bytes entries)

-- `ResolutionEntries::from`: the assertion on the length
unfoldable pub entries_from : Bytes → Result Bytes
entries_from value = if (length value - 1) % entry_size == 0 then ok value else err panicked

-- the view of a value that may be absent
unfoldable pub entries_view : Option Bytes → Result (Option Bytes)
unfolding entries_from
entries_view none = ok none
entries_view (some v) = do bts ← entries_from v; ok (some bts)

-- the closure of the decrement on a value that is there; `none` removes the entry
unfoldable pub decremented_entries : Bytes → Result (Option Bytes)
unfolding entries_from entries_attempt_count to_mutable decrement_attempt_count
decremented_entries value = do
  like_vector ← entries_from value
  (if entries_attempt_count like_vector - 1 == 0
      then ok none
      else (do new_v ← to_mutable like_vector; ok (some (decrement_attempt_count new_v))))

-- the closure of the extension: the new attempt count and the new entries come first
unfoldable pub extended_entries : Bytes → Option Bytes → Result Bytes
unfolding entries_from as_entry_slice extend_from_slice
extended_entries extended none = ok extended
extended_entries extended (some value) = do
  old ← entries_from value
  elim (as_entry_slice old) [
    | ok entries ↦ ok (extend_from_slice extended entries)
    | err _ ↦ err panicked
  ]

unfoldable pub decode_block_key : Bytes → Result Bytes
decode_block_key key = if length key == 32 then ok key else err invalid_key_length

module _ (db : Fjall) where
  open db use {Tree, get, insert, iter, fetch_update}

  unfoldable pub insert_wtx : Tree → Bytes → Bytes → Tree
  insert_wtx t accepting_block_hash entry_vector = insert t accepting_block_hash entry_vector

  unfoldable pub get_by_accepting_block_hash : Tree → Bytes → Result (Option Bytes)
  unfolding entries_view
  get_by_accepting_block_hash t accepting_block_hash = entries_view (get t accepting_block_hash)

  unfoldable pub remove_by_accepting_block_hash : Tree → Bytes → Result (Option Bytes × Tree)
  unfolding entries_view
  remove_by_accepting_block_hash t accepting_block_hash = do
    let (old, t') = fetch_update t accepting_block_hash (λ _. none)
    entries ← entries_view old
    ok (entries, t')

  unfoldable pub has_unknown_daa : Tree → Bytes → Bool
  has_unknown_daa t accepting_block_hash = is_some (get t accepting_block_hash)

  unfoldable pub get_all_unknown_accepting_blocks : Tree → List (Result Bytes)
  unfolding decode_block_key
  get_all_unknown_accepting_blocks t = map (λ (e : Entry). decode_block_key e.0) (iter t)

  -- true if the entry was removed
  unfoldable pub decrement_attempt_counts_by_block_hash : Tree → Bytes → Result (Bool × Tree)
  unfolding decremented_entries
  decrement_attempt_counts_by_block_hash t accepting_block_hash =
      elim (get t accepting_block_hash) [
        | none ↦ ok (false, (fetch_update t accepting_block_hash (λ _. none)).1)
        | some value_bytes ↦ do
          value ← decremented_entries value_bytes
          ok (
            elim value [ none ↦ true | some _ ↦ false ],
            (fetch_update t accepting_block_hash (λ _. value)).1,
          )
      ]

  unfoldable pub extend_by_accepting_block_hash : Tree → Bytes → Bytes → Result Tree
  unfolding extended_entries
  extend_by_accepting_block_hash t accepting_block_hash extended = do
    value ← extended_entries extended (get t accepting_block_hash)
    ok (fetch_update t accepting_block_hash (λ _. some value)).1
