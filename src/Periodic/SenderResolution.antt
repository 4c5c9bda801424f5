-- ===== src/Periodic/SenderResolution.antt =====
-- `handle_sender_resolution` of indexer-lib/src/periodic_processor.rs: the resolver's answer about
-- the sender of a transaction.
use local_rusty_indexer_poc.Prelude.{Bool, some, Result, ok, ◌>>=◌, for_each}
use local_rusty_indexer_poc.Keys.{
  AddressPayload, default_address, handshake_from_bytes, contextual_from_bytes, payment_from_bytes,
  SenderResolutionLikeKey, handshake_key, contextual_message_key, payment_key,
}
use local_rusty_indexer_poc.Messages.Address.{TxScript, ScriptPublicKey, try_from}
use local_rusty_indexer_poc.Messages.Handshakes
use local_rusty_indexer_poc.Messages.Payments
use local_rusty_indexer_poc.Messages.Contextual
use local_rusty_indexer_poc.Processing.{PartitionId}
use local_rusty_indexer_poc.Processing.Acceptance
use local_rusty_indexer_poc.Processing.Pending
use local_rusty_indexer_poc.Resolver.{SenderByTxIdAndDaa}
use local_rusty_indexer_poc.Store.{Fjall}
use local_rusty_indexer_poc.Keyspace.{Keyspace, commit}

-- addresses are of the node's libraries: `pay_to_address_script`
pub record Addresses : Type 1 where
  pub Address : Type 0
  pub pay_to_address_script : Address → ScriptPublicKey

module _ (a : Addresses) (tx : TxScript) where
  -- `TryFrom<&RpcAddress> for AddressPayload`
  unfoldable pub payload_of_address : a.Address → Result AddressPayload
  payload_of_address address = try_from tx (a.pay_to_address_script address)

-- `Result<(RpcAddress, SenderByTxIdAndDaa), SenderByTxIdAndDaa>`
pub data SenderAnswer (a : Addresses) : Type 0 where
  found : a.Address → SenderByTxIdAndDaa → SenderAnswer a
  not_found : SenderByTxIdAndDaa → SenderAnswer a

module _ (db : Fjall) where
  -- the arms of the `match` on a pending key
  unfoldable pub resolve_message :
      AddressPayload → SenderResolutionLikeKey → Keyspace db → Result (Keyspace db)
  resolve_message sender (handshake_key b) wtx = do
    hk ← handshake_from_bytes b
    ok (record wtx {
      handshake_by_sender = Handshakes.insert_by_sender db wtx.handshake_by_sender (record {
        sender = sender;
        block_time = hk.block_time;
        block_hash = hk.block_hash;
        receiver = hk.receiver;
        version = hk.version;
        tx_id = hk.tx_id;
      });
      handshake_by_receiver =
          Handshakes.insert_by_receiver db wtx.handshake_by_receiver
            (record {
              receiver = hk.receiver;
              block_time = hk.block_time;
              block_hash = hk.block_hash;
              version = hk.version;
              tx_id = hk.tx_id;
            })
            (some sender);
    })
  resolve_message sender (contextual_message_key b) wtx = do
    cmk ← contextual_from_bytes b
    messages ←
        Contextual.update_sender db wtx.contextual_message_by_sender default_address sender
          cmk.alias cmk.block_time cmk.block_hash cmk.version cmk.tx_id
    ok (record wtx { contextual_message_by_sender = messages })
  resolve_message sender (payment_key b) wtx = do
    pmk ← payment_from_bytes b
    ok (record wtx {
      payment_by_sender = Payments.insert_by_sender db wtx.payment_by_sender (record {
        sender = sender;
        block_time = pmk.block_time;
        block_hash = pmk.block_hash;
        receiver = pmk.receiver;
        version = pmk.version;
        tx_id = pmk.tx_id;
      });
      payment_by_receiver =
          Payments.insert_by_receiver db wtx.payment_by_receiver
            (record {
              receiver = pmk.receiver;
              block_time = pmk.block_time;
              block_hash = pmk.block_hash;
              version = pmk.version;
              tx_id = pmk.tx_id;
            })
            (some sender);
    })

  -- the body of the loop over what was pending
  abbrev pub resolve_pending :
      AddressPayload → PartitionId × SenderResolutionLikeKey → Keyspace db → Result (Keyspace db)
  resolve_pending sender (partition_id, key) wtx = resolve_message sender key wtx

  -- the branch of an answer with an address
  unfoldable pub resolve_sender :
      AddressPayload → SenderByTxIdAndDaa → Keyspace db → Result (Keyspace db)
  unfolding resolve_message
  resolve_sender sender request ks = do
    let acceptance =
        Acceptance.resolve_by_raw_keys db ks.tx_id_to_acceptance
          (Acceptance.raw_keys_by_txid db ks.tx_id_to_acceptance request.tx_id)
    (pending, senders) ←
        Pending.remove_pending db ks.pending_sender_resolution request.daa_score request.tx_id
    for_each (resolve_pending sender) pending
        (record ks { tx_id_to_acceptance = acceptance; pending_sender_resolution = senders })

module _ (db : Fjall) (a : Addresses) (tx : TxScript) where
  unfoldable pub handle_sender_resolution :
      Bool → SenderAnswer a → Keyspace db → Result (Keyspace db)
  unfolding payload_of_address resolve_sender commit
  handle_sender_resolution lost (found address request) ks = do
    sender ← payload_of_address a tx address
    wtx ← resolve_sender db sender request ks
    commit lost wtx
  handle_sender_resolution lost (not_found request) ks = do
    (_, senders) ←
        Pending.decrement_attempt_counts_by_transaction db ks.pending_sender_resolution
          request.daa_score request.tx_id
    commit lost (record ks { pending_sender_resolution = senders })
