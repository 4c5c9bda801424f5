-- ===== src/VirtualChain.antt =====
-- indexer-lib/src/virtual_chain_processor.rs: what a change of the virtual chain does to the
-- partitions.
pub mod Unaccept
pub mod Accept
pub mod Removal
pub mod Visits
pub mod Acceptance
pub mod Worker
use local_rusty_indexer_poc.Prelude.{
  ℕ, Bool, true, false, not, Option, none, some, List, [], ◌∷◌, map, is_empty, last?, retain,
  replicate, ◌==◌, if◌then◌else◌, Result, ok, err, ◌>>=◌, for_each, for_each_ok, panicked, or_fail,
  ◌++◌, ◌>>◌,
}
use local_rusty_indexer_poc.Bytes.{Bytes, ◌=ᵇ◌}
use local_rusty_indexer_poc.Keys.{handshake_from_bytes, contextual_from_bytes, payment_from_bytes}
use local_rusty_indexer_poc.Keys.Layout.{slice, byte_at}
use local_rusty_indexer_poc.Metadata
use local_rusty_indexer_poc.Headers.Compact
use local_rusty_indexer_poc.Processing.{
  as_u8, handshake_by_sender, contextual_message_by_sender, payment_by_sender,
}
use local_rusty_indexer_poc.Processing.Acceptance as TxAcceptance
use local_rusty_indexer_poc.Processing.Acceptance.{
  AcceptingBlockResolutionData, handshake_key, contextual_message_key, payment_key, no_data,
}
use local_rusty_indexer_poc.Processing.AcceptingBlock
use local_rusty_indexer_poc.Processing.Skip
use local_rusty_indexer_poc.Processing.TxIds
use local_rusty_indexer_poc.Processing.UnknownTx
use local_rusty_indexer_poc.Processing.UnknownDaa
use local_rusty_indexer_poc.Processing.Pending
use local_rusty_indexer_poc.Store.{Fjall}
use Unaccept.{handle_chain_block_removal}
use Accept.{AcceptedTransactionIds, handle_accepted_block}
use local_rusty_indexer_poc.Keyspace.{Keyspace, commit}

pub record VirtualChainChangedNotification : Type 0 where
  pub removed_chain_block_hashes : List Bytes
  pub added_chain_block_hashes : List Bytes
  pub accepted_transaction_ids : List AcceptedTransactionIds

pub record VirtualChainChangedNotificationAndBlueWork : Type 0 where
  pub vcc : VirtualChainChangedNotification
  pub last_block_blue_work : ℕ
  pub last_daa_score : ℕ

module _ (db : Fjall) where
  -- `lost` says whether the commit meets a conflict
  unfoldable pub handle_vcc :
      ℕ → Bool → VirtualChainChangedNotificationAndBlueWork → Keyspace db → Result (Keyspace db)
  unfolding handle_chain_block_removal handle_accepted_block commit
  handle_vcc attempts lost n ks = if is_empty n.vcc.added_chain_block_hashes then ok ks else (do
    let rtx = ks
    removed ← for_each (handle_chain_block_removal db rtx) n.vcc.removed_chain_block_hashes ks
    accepted ←
        for_each (handle_accepted_block db attempts rtx) n.vcc.accepted_transaction_ids removed
    last_block ← or_fail (last? n.vcc.added_chain_block_hashes) panicked
    let cursor = Metadata.set_latest_accepting_block_cursor db accepted.metadata (record {
      daa_score = n.last_daa_score;
      blue_work = n.last_block_blue_work;
      hash = last_block;
    })
    commit lost (record accepted { metadata = cursor }))
