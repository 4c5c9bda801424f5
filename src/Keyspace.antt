-- ===== src/Keyspace.antt =====
-- The partitions of the database, as indexer/src/main.rs opens them. A transaction reads and writes
-- a `Keyspace` of its own: a read transaction is a snapshot, and a write transaction is the
-- keyspace as it sees it, which `commit` makes the current one.
use local_rusty_indexer_poc.Prelude.{Bool, Result, ok, err, conflict, if◌then◌else◌}
use local_rusty_indexer_poc.Store.{Fjall}

pub record Keyspace (db : Fjall) : Type 0 where
  pub metadata : db.Tree
  pub handshake_by_sender : db.Tree
  pub handshake_by_receiver : db.Tree
  pub tx_id_to_handshake : db.Tree
  pub contextual_message_by_sender : db.Tree
  pub payment_by_sender : db.Tree
  pub payment_by_receiver : db.Tree
  pub tx_id_to_payment : db.Tree
  pub tx_id_to_acceptance : db.Tree
  pub acceptance_to_tx_id : db.Tree
  pub skip_tx : db.Tree
  pub skip_tx_by_block : db.Tree
  pub block_compact_header : db.Tree
  pub daa_index : db.Tree
  pub unknown_tx : db.Tree
  pub unknown_accepting_daa : db.Tree
  pub pending_sender_resolution : db.Tree
  pub block_gaps : db.Tree

-- `wtx.commit()??`: whether the store found a conflict is not ours to decide
unfoldable pub commit : {db : Fjall} → Bool → Keyspace db → Result (Keyspace db)
commit lost wtx = if lost then err conflict else ok wtx
