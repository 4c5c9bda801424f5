-- ===== src/BlockProcessor/Halts.antt =====
-- Which blocks end the block worker.
use local_rusty_indexer_poc.Prelude.{
  Bool, Error, ok, ◌≡◌, refl, ◌<◌, some, List, ◌∷◌, length, true, false, arith, err, alias_too_long,
  ltb,
}
use local_rusty_indexer_poc.Bytes.{Bytes}
use local_rusty_indexer_poc.FifoSet.{RingSet}
use local_rusty_indexer_poc.FifoSet as Fifo
use local_rusty_indexer_poc.Store.{Fjall}
use local_rusty_indexer_poc.Keyspace.{Keyspace}
use local_rusty_indexer_poc.Messages.Contextual as Contextual
use local_rusty_indexer_poc.Protocol.{
  contextual_message_v1, SealedContextualMessageV1, parse_sealed_operation,
}
use local_rusty_indexer_poc.BlockProcessor.Handlers.{
  Chain, Transaction, Block, Running, id_of, handle_transaction, handle_operation,
  handle_contextual_message,
}
use local_rusty_indexer_poc.BlockProcessor.{
  Processor, handle_transactions, handle_block, write_headers, dropped,
}

module _ (db : Fjall) (r : RingSet) (chain : Chain) where
  handle_operation-long :
      (block : Block) (tx : Transaction) (tx_id : Bytes) (op : SealedContextualMessageV1)
      (wtx : Keyspace db)
      → 16 < length op.alias
      → handle_operation db chain block tx tx_id (some (contextual_message_v1 op)) wtx
        ≡ err alias_too_long
  unfolding handle_operation handle_contextual_message Contextual.insert_message
  handle_operation-long block tx tx_id op wtx h =
      let long : ltb 16 (length op.alias) ≡ true = ground arith in rw long refl

  handle_transaction-long :
      (block : Block) (tx : Transaction) (tx_id : Bytes) (op : SealedContextualMessageV1)
      (s : Running db r)
      → id_of chain tx ≡ ok tx_id
      → Fifo.contains r s.processed_txs tx_id ≡ false
      → parse_sealed_operation tx.payload ≡ some (contextual_message_v1 op)
      → 16 < length op.alias
      → handle_transaction db r chain block tx s ≡ err alias_too_long
  unfolding handle_transaction
  handle_transaction-long block tx tx_id op s id new parsed h =
      rw (id, new, parsed, handle_operation-long block tx tx_id op s.wtx h) refl

  handle_transactions_fail :
      (block : Block) (tx : Transaction) (txs : List Transaction) (s : Running db r) (e : Error)
      → handle_transaction db r chain block tx s ≡ err e
      → handle_transactions db r chain block (tx ∷ txs) s ≡ (s, err e)
  unfolding handle_transactions
  handle_transactions_fail block tx txs s e h = rw (handle_transactions, h) refl

  handle_block_fail :
      (block : Block) (lost : Bool) (p : Processor db r) (s : Running db r) (e : Error)
      → Fifo.contains r p.processed_blocks block.hash ≡ false
      → handle_transactions db r chain block block.transactions (record {
        processed_txs = p.processed_txs;
        wtx = write_headers db r chain block p.keyspace;
        contextual_messages = p.contextual_messages;
      })
        ≡ (s, err e)
      → handle_block db r chain block lost p
        ≡ (dropped db r chain p (write_headers db r chain block p.keyspace) s, some e)
  unfolding handle_block
  handle_block_fail block lost p s e fresh h = rw (fresh, h, h) refl

  -- A block that was not seen before, whose first transaction is new and carries a contextual
  -- message with an alias of more than 16 bytes, ends the worker with an error, and of the block
  -- only the header and the index entry remain.
  pub handle_block-long_alias :
      (block : Block) (tx : Transaction) (txs : List Transaction) (tx_id : Bytes)
      (op : SealedContextualMessageV1) (lost : Bool) (p : Processor db r)
      → Fifo.contains r p.processed_blocks block.hash ≡ false
      → block.transactions ≡ tx ∷ txs
      → id_of chain tx ≡ ok tx_id
      → Fifo.contains r p.processed_txs tx_id ≡ false
      → parse_sealed_operation tx.payload ≡ some (contextual_message_v1 op)
      → 16 < length op.alias
      → handle_block db r chain block lost p
        ≡ (record p { keyspace = write_headers db r chain block p.keyspace }, some alias_too_long)
  unfolding dropped write_headers handle_transactions
  handle_block-long_alias block tx txs tx_id op lost p fresh shape id new parsed h =
      let s : Running db r = record {
        processed_txs = p.processed_txs;
        wtx = write_headers db r chain block p.keyspace;
        contextual_messages = p.contextual_messages;
      } in
      handle_block_fail block lost p s alias_too_long fresh (
        rw shape (
          handle_transactions_fail block tx txs s alias_too_long
            (handle_transaction-long block tx tx_id op s id new parsed h)))
