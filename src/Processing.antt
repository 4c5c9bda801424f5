-- ===== src/Processing.antt =====
-- indexer-lib/src/database/processing: the partitions that track transactions until they are
-- resolved. A partition operation is a function on the partition's tree, over any store.
pub mod TxIds
pub mod AcceptingBlock
pub mod Acceptance
pub mod Skip
pub mod UnknownTx
pub mod UnknownDaa
pub mod Pending
pub mod Removal
pub mod Retries
pub mod Pruning
pub mod PendingScan
pub mod Entries
use local_rusty_indexer_poc.Prelude.{ℕ, ◌==◌, if◌then◌else◌, Result, ok, err, invalid_partition}

-- `PartitionId` of indexer-lib/src/database.rs
pub data PartitionId : Type 0 where
  handshake_by_sender handshake_by_receiver tx_id_to_handshake : PartitionId
  acceptance_to_tx_id tx_id_to_acceptance : PartitionId
  skip_tx unknown_tx block_compact_header unknown_accepting_daa : PartitionId
  pending_sender_resolution : PartitionId
  metadata block_gaps accepting_block_gaps contextual_message_by_sender : PartitionId
  payment_by_sender payment_by_receiver tx_id_to_payment : PartitionId

-- `x as u8`
abbrev pub as_u8 : PartitionId → ℕ
as_u8 handshake_by_sender = 0
as_u8 handshake_by_receiver = 1
as_u8 tx_id_to_handshake = 2
as_u8 acceptance_to_tx_id = 3
as_u8 tx_id_to_acceptance = 4
as_u8 skip_tx = 5
as_u8 unknown_tx = 6
as_u8 block_compact_header = 7
as_u8 unknown_accepting_daa = 8
as_u8 pending_sender_resolution = 9
as_u8 metadata = 10
as_u8 block_gaps = 11
as_u8 accepting_block_gaps = 12
as_u8 contextual_message_by_sender = 13
as_u8 payment_by_sender = 14
as_u8 payment_by_receiver = 15
as_u8 tx_id_to_payment = 16

-- The `match` on a stored partition byte: only the three message kinds are legal.
unfoldable pub message_partition : ℕ → Result PartitionId
message_partition x =
    if x == as_u8 handshake_by_sender
    then ok handshake_by_sender
    else if x == as_u8 contextual_message_by_sender
    then ok contextual_message_by_sender
    else if x == as_u8 payment_by_sender
    then ok payment_by_sender
    else err invalid_partition
