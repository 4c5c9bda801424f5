-- ===== src/Messages/Payments.antt =====
-- the partitions of indexer-lib/src/database/messages/payments.rs
use local_rusty_indexer_poc.Prelude.{
  ℕ, Option, none, some, [], ◌∷◌, ◌++◌, length, take, drop, leb, ◌==◌, if◌then◌else◌, Result, ok,
  err, invalid_key_length, invalid_value_length,
}
use local_rusty_indexer_poc.Bytes.{Bytes}
use local_rusty_indexer_poc.Bytes.Endian.{to_be_bytes, from_be_bytes}
use local_rusty_indexer_poc.Keys.{AddressPayload, address_bytes}
use local_rusty_indexer_poc.Keys.Layout.{join}
use local_rusty_indexer_poc.Messages.Handshakes.{sender_or_default}
use local_rusty_indexer_poc.Store.{Fjall}

pub record PaymentKeyBySender : Type 0 where
  pub sender : AddressPayload
  pub block_time : Bytes
  pub block_hash : Bytes
  pub receiver : AddressPayload
  pub version : ℕ
  pub tx_id : Bytes

pub record PaymentKeyByReceiver : Type 0 where
  pub receiver : AddressPayload
  pub block_time : Bytes
  pub block_hash : Bytes
  pub version : ℕ
  pub tx_id : Bytes

unfoldable pub by_sender_bytes : PaymentKeyBySender → Bytes
by_sender_bytes k = join (
    address_bytes k.sender
    ∷ k.block_time
    ∷ k.block_hash
    ∷ address_bytes k.receiver
    ∷ (k.version ∷ [])
    ∷ k.tx_id
    ∷ [])

unfoldable pub by_receiver_bytes : PaymentKeyByReceiver → Bytes
by_receiver_bytes k =
    join (address_bytes k.receiver ∷ k.block_time ∷ k.block_hash ∷ (k.version ∷ []) ∷ k.tx_id ∷ [])

-- the value under a transaction id: the amount, then the message
unfoldable pub amount_and_hex : Option Bytes → Result (Option (ℕ × Bytes))
amount_and_hex none = ok none
amount_and_hex (some value_bytes) =
    if leb 8 (length value_bytes)
    then ok (some (from_be_bytes (take 8 value_bytes), drop 8 value_bytes))
    else err invalid_value_length

module _ (db : Fjall) where
  open db use {Tree, get, insert}

  unfoldable pub insert_by_sender : Tree → PaymentKeyBySender → Tree
  unfolding by_sender_bytes
  insert_by_sender t key = insert t (by_sender_bytes key) []

  unfoldable pub insert_by_receiver : Tree → PaymentKeyByReceiver → Option AddressPayload → Tree
  unfolding by_receiver_bytes
  insert_by_receiver t key sender =
      insert t (by_receiver_bytes key) (address_bytes (sender_or_default sender))

  unfoldable pub insert_tx_id : Tree → Bytes → ℕ → Bytes → Result Tree
  insert_tx_id t tx_id amount sealed_hex =
      if length tx_id == 32
      then ok (insert t tx_id (to_be_bytes 8 amount ++ sealed_hex))
      else err invalid_key_length

  unfoldable pub get_payment : Tree → Bytes → Result (Option (ℕ × Bytes))
  unfolding amount_and_hex
  get_payment t tx_id =
      if length tx_id == 32 then amount_and_hex (get t tx_id) else err invalid_key_length
