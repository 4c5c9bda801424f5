-- ===== src/BlockProcessor/Handlers.antt =====
-- `handle_transaction` and the three message handlers of indexer-lib/src/block_processor.rs
use local_rusty_indexer_poc.Prelude.{
  ℕ, ◌+◌, ◌%◌, ◌^◌, Option, none, some, List, [], ◌∷◌, length, ltb, if◌then◌else◌, Result, ok, err,
  ◌>>=◌, panicked,
}
use local_rusty_indexer_poc.Bytes.{Bytes}
use local_rusty_indexer_poc.Bytes.Endian.{to_be_bytes}
use local_rusty_indexer_poc.FifoSet.{RingSet, FifoSet}
use local_rusty_indexer_poc.FifoSet as Fifo
use local_rusty_indexer_poc.Keys.{AddressPayload, default_address}
use local_rusty_indexer_poc.Messages.Address.{TxScript, ScriptPublicKey}
use local_rusty_indexer_poc.Messages.Address as Address
use local_rusty_indexer_poc.Messages.Handshakes
use local_rusty_indexer_poc.Messages.Payments
use local_rusty_indexer_poc.Messages.Contextual
use local_rusty_indexer_poc.Messages.Contextual.{pad_alias}
use local_rusty_indexer_poc.Processing.Acceptance
use local_rusty_indexer_poc.Processing.Skip
use local_rusty_indexer_poc.Protocol.{
  SealedOperation, sealed_message_or_sealed_handshake_vnone, contextual_message_v1, payment_v1,
  SealedMessageOrSealedHandshakeVNone, SealedContextualMessageV1, SealedPaymentV1,
  parse_sealed_operation,
}
use local_rusty_indexer_poc.Store.{Fjall}
use local_rusty_indexer_poc.Keyspace.{Keyspace}

pub record Output : Type 0 where
  pub value : ℕ
  pub script_public_key : ScriptPublicKey

-- `RpcTransaction`, as far as the handlers read it
pub record Transaction : Type 0 where
  pub verbose_id : Option Bytes
  pub payload : Bytes
  pub outputs : List Output

-- `RpcBlock`, as far as the handlers read it
pub record Block : Type 0 where
  pub hash : Bytes
  pub daa_score : ℕ
  pub blue_work : ℕ
  pub timestamp : ℕ
  pub transactions : List Transaction

-- what the node's libraries compute
pub record Chain : Type 0 where
  pub scripts : TxScript
  -- `Transaction::try_from(tx.clone())?.id()`
  pub compute_id : Transaction → Result Bytes

-- `verbose_data.transaction_id`, or the computed id
unfoldable pub id_of : Chain → Transaction → Result Bytes
id_of chain tx = elim tx.verbose_id [ some id ↦ ok id | none ↦ chain.compute_id tx ]

-- the address of the first output, `unwrap_or_default` without outputs
unfoldable pub first_receiver : Chain → List Output → Result AddressPayload
first_receiver chain [] = ok default_address
first_receiver chain (o ∷ outputs) = Address.try_from chain.scripts o.script_public_key

-- the amount and the address of the first output
unfoldable pub first_payment : Chain → List Output → Result (ℕ × AddressPayload)
first_payment chain [] = ok (0, default_address)
first_payment chain (o ∷ outputs) = do
  receiver ← Address.try_from chain.scripts o.script_public_key
  ok (o.value, receiver)

-- what a block's loop carries along: the write transaction, and what outlives it
pub record Running (db : Fjall) (r : RingSet) : Type 0 where
  pub processed_txs : FifoSet r
  pub wtx : Keyspace db
  pub contextual_messages : ℕ

module _ (db : Fjall) (chain : Chain) where
  unfoldable pub handle_handshake :
      Block
      → Transaction
      → Bytes
      → SealedMessageOrSealedHandshakeVNone
      → Keyspace db
      → Result (Keyspace db)
  unfolding first_receiver
  handle_handshake block tx tx_id op wtx = do
    let messages = Handshakes.insert_tx_id db wtx.tx_id_to_handshake tx_id op.sealed_hex
    receiver ← first_receiver chain tx.outputs
    let by_receiver =
        Handshakes.insert_by_receiver db wtx.handshake_by_receiver
          (record {
            receiver = receiver;
            block_time = to_be_bytes 8 block.timestamp;
            block_hash = block.hash;
            version = 0;
            tx_id = tx_id;
          })
          none
    let acceptance =
        Acceptance.insert_handshake_wtx db wtx.tx_id_to_acceptance tx_id
          (record {
            block_time = to_be_bytes 8 block.timestamp;
            block_hash = block.hash;
            receiver = receiver;
            version = 0;
            tx_id = tx_id;
            attempt_count = 10;
          })
          none none
    ok (record wtx {
      tx_id_to_handshake = messages;
      handshake_by_receiver = by_receiver;
      tx_id_to_acceptance = acceptance;
    })

  -- the copy into 16 bytes panics on a longer alias
  unfoldable pub copy_alias : Bytes → Result Bytes
  copy_alias alias = if ltb 16 (length alias) then err panicked else ok (pad_alias alias)

  unfoldable pub handle_contextual_message :
      Block → Bytes → SealedContextualMessageV1 → Keyspace db → Result (Keyspace db)
  unfolding copy_alias
  handle_contextual_message block tx_id op wtx = do
    messages ←
        Contextual.insert_message db wtx.contextual_message_by_sender default_address op.alias
          block.timestamp block.hash 1 tx_id op.sealed_hex
    alias ← copy_alias op.alias
    let acceptance =
        Acceptance.insert_contextual_message_wtx db wtx.tx_id_to_acceptance tx_id
          (record {
            alias = alias;
            block_time = to_be_bytes 8 block.timestamp;
            block_hash = block.hash;
            version = 1;
            tx_id = tx_id;
            attempt_count = 10;
          })
          none none
    ok (record wtx { contextual_message_by_sender = messages; tx_id_to_acceptance = acceptance })

  unfoldable pub handle_payment :
      Block → Transaction → Bytes → SealedPaymentV1 → Keyspace db → Result (Keyspace db)
  unfolding first_payment
  handle_payment block tx tx_id op wtx = do
    (amount, receiver) ← first_payment chain tx.outputs
    messages ← Payments.insert_tx_id db wtx.tx_id_to_payment tx_id amount op.sealed_hex
    let by_receiver =
        Payments.insert_by_receiver db wtx.payment_by_receiver
          (record {
            receiver = receiver;
            block_time = to_be_bytes 8 block.timestamp;
            block_hash = block.hash;
            version = 1;
            tx_id = tx_id;
          })
          none
    let acceptance =
        Acceptance.insert_payment_wtx db wtx.tx_id_to_acceptance tx_id
          (record {
            block_time = to_be_bytes 8 block.timestamp;
            block_hash = block.hash;
            receiver = receiver;
            version = 1;
            tx_id = tx_id;
            attempt_count = 10;
          })
          none none
    ok (record wtx {
      tx_id_to_payment = messages;
      payment_by_receiver = by_receiver;
      tx_id_to_acceptance = acceptance;
    })

  -- the `match` on the parsed operation: the id to skip, the keyspace, and the contextual messages
  -- to count
  unfoldable pub handle_operation :
      Block
      → Transaction
      → Bytes
      → Option SealedOperation
      → Keyspace db
      → Result (Option Bytes × Keyspace db × ℕ)
  unfolding handle_handshake handle_contextual_message handle_payment
  handle_operation block tx tx_id (some (sealed_message_or_sealed_handshake_vnone op)) wtx = do
    wtx' ← handle_handshake block tx tx_id op wtx
    ok (none, wtx', 0)
  handle_operation block tx tx_id (some (contextual_message_v1 op)) wtx = do
    wtx' ← handle_contextual_message block tx_id op wtx
    ok (none, wtx', 1)
  handle_operation block tx tx_id (some (payment_v1 op)) wtx = do
    wtx' ← handle_payment block tx tx_id op wtx
    ok (none, wtx', 0)
  handle_operation block tx tx_id none wtx =
      ok (some tx_id, record wtx { skip_tx = Skip.mark_skip db wtx.skip_tx tx_id }, 0)

module _ (db : Fjall) (r : RingSet) (chain : Chain) where
  unfoldable pub handle_transaction :
      Block → Transaction → Running db r → Result (Option Bytes × Running db r)
  unfolding id_of handle_operation
  handle_transaction block tx s = do
    tx_id ← id_of chain tx
    (if Fifo.contains r s.processed_txs tx_id then ok (none, s) else (do
      (skipped, wtx, counted) ←
          handle_operation db chain block tx tx_id (parse_sealed_operation tx.payload) s.wtx
      ok (
        skipped,
        record {
          processed_txs = (Fifo.insert r s.processed_txs tx_id).0;
          wtx = wtx;
          contextual_messages = (s.contextual_messages + counted) % 2 ^ 64;
        },
      )))
