-- ===== src/Messages/Contextual.antt =====
-- indexer-lib/src/database/messages/contextual_messages.rs
use local_rusty_indexer_poc.Prelude.{
  ℕ, ◌-◌, Option, none, some, List, [], ◌∷◌, ◌++◌, length, replicate, ltb, if◌then◌else◌, Result,
  ok, err, alias_too_long,
}
use local_rusty_indexer_poc.Bytes.{Bytes}
use local_rusty_indexer_poc.Bytes.Endian.{to_be_bytes}
use local_rusty_indexer_poc.Keys.{AddressPayload, address_bytes}
use local_rusty_indexer_poc.Keys.Layout.{join}
use local_rusty_indexer_poc.Store.{Fjall, Entry}

pub record ContextualMessageBySenderKey : Type 0 where
  pub sender : AddressPayload
  pub alias : Bytes
  pub block_time : Bytes
  pub block_hash : Bytes
  pub version : ℕ
  pub tx_id : Bytes

unfoldable pub by_sender_bytes : ContextualMessageBySenderKey → Bytes
by_sender_bytes k = join (
    address_bytes k.sender
    ∷ k.alias
    ∷ k.block_time
    ∷ k.block_hash
    ∷ (k.version ∷ [])
    ∷ k.tx_id
    ∷ [])

-- an alias of at most 16 bytes, with zeros up to 16
abbrev pub pad_alias : Bytes → Bytes
pad_alias alias = alias ++ replicate (16 - length alias) 0

abbrev pub contextual_key :
    AddressPayload → Bytes → Bytes → Bytes → ℕ → Bytes → ContextualMessageBySenderKey
contextual_key sender alias block_time block_hash version tx_id = record {
  sender = sender;
  alias = pad_alias alias;
  block_time = block_time;
  block_hash = block_hash;
  version = version;
  tx_id = tx_id;
}

module _ (db : Fjall) where
  open db use {Tree, get, insert, remove, iter, prefix}

  unfoldable pub insert_message :
      Tree → AddressPayload → Bytes → ℕ → Bytes → ℕ → Bytes → Bytes → Result Tree
  unfolding by_sender_bytes
  insert_message t sender alias block_time block_hash version tx_id sealed_hex =
      if ltb 16 (length alias)
      then err alias_too_long
      else ok (
          insert t
            (by_sender_bytes
              (contextual_key sender alias (to_be_bytes 8 block_time) block_hash version tx_id))
            sealed_hex)

  unfoldable pub get_message :
      Tree → AddressPayload → Bytes → ℕ → Bytes → ℕ → Bytes → Result (Option Bytes)
  unfolding by_sender_bytes
  get_message t sender alias block_time block_hash version tx_id =
      if ltb 16 (length alias)
      then err alias_too_long
      else ok (
          get t (
            by_sender_bytes
              (contextual_key sender alias (to_be_bytes 8 block_time) block_hash version tx_id)))

  unfoldable pub get_by_sender_prefix : Tree → AddressPayload → List Entry
  get_by_sender_prefix t sender = prefix t (address_bytes sender)

  unfoldable pub update_sender :
      Tree → AddressPayload → AddressPayload → Bytes → Bytes → Bytes → ℕ → Bytes → Result Tree
  unfolding by_sender_bytes
  update_sender t old_sender new_sender alias block_time block_hash version tx_id =
      if ltb 16 (length alias)
      then err alias_too_long
      else elim (get t
          (by_sender_bytes (contextual_key old_sender alias block_time block_hash version tx_id))) [
            | none ↦ ok t
            | some sealed_hex ↦ ok (
                insert
                  (remove t (
                    by_sender_bytes
                      (contextual_key old_sender alias block_time block_hash version tx_id)))
                  (by_sender_bytes
                    (contextual_key new_sender alias block_time block_hash version tx_id))
                  sealed_hex)
          ]
