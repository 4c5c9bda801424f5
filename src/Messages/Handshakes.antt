-- ===== src/Messages/Handshakes.antt =====
-- the partitions of indexer-lib/src/database/messages/handshakes.rs
use local_rusty_indexer_poc.Prelude.{ℕ, Option, none, some, [], ◌∷◌}
use local_rusty_indexer_poc.Bytes.{Bytes}
use local_rusty_indexer_poc.Keys.{AddressPayload, default_address, address_bytes}
use local_rusty_indexer_poc.Keys.Layout.{join}
use local_rusty_indexer_poc.Store.{Fjall}

pub record HandshakeKeyBySender : Type 0 where
  pub sender : AddressPayload
  pub block_time : Bytes
  pub block_hash : Bytes
  pub receiver : AddressPayload
  pub version : ℕ
  pub tx_id : Bytes

pub record HandshakeKeyByReceiver : Type 0 where
  pub receiver : AddressPayload
  pub block_time : Bytes
  pub block_hash : Bytes
  pub version : ℕ
  pub tx_id : Bytes

unfoldable pub by_sender_bytes : HandshakeKeyBySender → Bytes
by_sender_bytes k = join (
    address_bytes k.sender
    ∷ k.block_time
    ∷ k.block_hash
    ∷ address_bytes k.receiver
    ∷ (k.version ∷ [])
    ∷ k.tx_id
    ∷ [])

unfoldable pub by_receiver_bytes : HandshakeKeyByReceiver → Bytes
by_receiver_bytes k =
    join (address_bytes k.receiver ∷ k.block_time ∷ k.block_hash ∷ (k.version ∷ []) ∷ k.tx_id ∷ [])

-- `sender.unwrap_or_default()`
abbrev pub sender_or_default : Option AddressPayload → AddressPayload
sender_or_default none = default_address
sender_or_default (some sender) = sender

module _ (db : Fjall) where
  open db use {Tree, insert}

  unfoldable pub insert_by_sender : Tree → HandshakeKeyBySender → Tree
  unfolding by_sender_bytes
  insert_by_sender t key = insert t (by_sender_bytes key) []

  unfoldable pub insert_by_receiver : Tree → HandshakeKeyByReceiver → Option AddressPayload → Tree
  unfolding by_receiver_bytes
  insert_by_receiver t key sender =
      insert t (by_receiver_bytes key) (address_bytes (sender_or_default sender))

  -- `TxIdToHandshakePartition::insert_wtx`; the id is an array of 32 bytes
  unfoldable pub insert_tx_id : Tree → Bytes → Bytes → Tree
  insert_tx_id t tx_id sealed_hex = insert t tx_id sealed_hex
