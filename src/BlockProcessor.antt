-- ===== src/BlockProcessor.antt =====
-- indexer-lib/src/block_processor.rs. Blocks arrive as values of the node's RPC; the id of a
-- transaction without verbose data is computed by the node's libraries (`Chain.compute_id`).
pub mod Handlers
pub mod Effects
pub mod Halts
pub mod Once
pub mod Worker
use local_rusty_indexer_poc.Prelude.{
  ℕ, ◌+◌, ◌%◌, ◌^◌, Bool, Option, none, some, List, [], ◌∷◌, ◌++◌, is_empty, if◌then◌else◌, Result,
  ok, err, Error, ◌>>=◌,
}
use local_rusty_indexer_poc.Bytes.{Bytes}
use local_rusty_indexer_poc.FifoSet.{RingSet, FifoSet}
use local_rusty_indexer_poc.FifoSet as Fifo
use local_rusty_indexer_poc.Headers.Compact
use local_rusty_indexer_poc.Headers.DaaIndex
use local_rusty_indexer_poc.Metadata
use local_rusty_indexer_poc.Processing.Skip
use local_rusty_indexer_poc.Store.{Fjall}
use local_rusty_indexer_poc.Keyspace.{Keyspace, commit}
use Handlers.{Chain, Transaction, Block, Running, handle_transaction}

module _ (db : Fjall) (r : RingSet) where
  pub record Processor : Type 0 where
    pub processed_blocks : FifoSet r
    pub processed_txs : FifoSet r
    pub keyspace : Keyspace db
    pub contextual_messages : ℕ
    pub blocks_processed : ℕ

module _ (db : Fjall) (r : RingSet) (chain : Chain) where
  -- the loop over a block's transactions: what ran, the ids to skip, and the error that ended it
  unfoldable pub handle_transactions :
      Block → List Transaction → Running db r → Running db r × Result (List Bytes)
  unfolding handle_transaction
  handle_transactions block [] s = (s, ok [])
  handle_transactions block (tx ∷ txs) s = elim (handle_transaction db r chain block tx s) [
    | err e ↦ (s, err e)
    | ok (skipped, s') ↦
        let (s'', rest) = handle_transactions block txs s' in
        (
          s'',
          elim rest [
            | err e ↦ err e
            | ok ids ↦ ok (elim skipped [ none ↦ ids | some id ↦ id ∷ ids ])
          ],
        )
  ]

  -- what a block's transaction writes behind its messages
  unfoldable pub finish_block : Block → List Bytes → Bool → Keyspace db → Result (Keyspace db)
  unfolding commit
  finish_block block skipped lost wtx = do
    let skips =
        if is_empty skipped
        then wtx.skip_tx_by_block
        else Skip.add_skip_for_block db wtx.skip_tx_by_block block.daa_score block.hash skipped
    metadata ←
        Metadata.set_latest_block_cursor db wtx.metadata
          (record { daa_score = block.daa_score; blue_work = block.blue_work; hash = block.hash })
    commit lost (record wtx { skip_tx_by_block = skips; metadata = metadata })

  -- the two writes in front of the transaction, which are not rolled back
  unfoldable pub write_headers : Block → Keyspace db → Keyspace db
  write_headers block ks = record ks {
    block_compact_header =
        Compact.insert_compact_header db ks.block_compact_header block.hash block.blue_work
          block.daa_score;
    daa_index = DaaIndex.insert_index db ks.daa_index block.daa_score block.hash;
  }

  -- the processor after a transaction that was dropped
  unfoldable pub dropped : Processor db r → Keyspace db → Running db r → Processor db r
  dropped p ks s = record p {
    keyspace = ks;
    processed_txs = s.processed_txs;
    contextual_messages = s.contextual_messages;
  }

  -- One block. `lost` says whether the commit meets a conflict. The error ends the worker.
  unfoldable pub handle_block : Block → Bool → Processor db r → Processor db r × Option Error
  unfolding handle_transactions finish_block write_headers dropped
  handle_block block lost p =
      if Fifo.contains r p.processed_blocks block.hash
      then (p, none)
      else let ks = write_headers block p.keyspace in
        let (s, ran) = handle_transactions block block.transactions (record {
          processed_txs = p.processed_txs;
          wtx = ks;
          contextual_messages = p.contextual_messages;
        }) in
        elim ran [
          | err e ↦ (dropped p ks s, some e)
          | ok skipped ↦ elim (finish_block block skipped lost s.wtx) [
            | err e ↦ (dropped p ks s, some e)
            | ok ks' ↦ (
              record p {
                keyspace = ks';
                processed_txs = s.processed_txs;
                contextual_messages = s.contextual_messages;
                processed_blocks = (Fifo.insert r p.processed_blocks block.hash).0;
                blocks_processed = (p.blocks_processed + 1) % 2 ^ 64;
              },
              none,
            )
          ]
        ]

  -- `handle_blocks`: each block with the fate of its commit
  unfoldable pub handle_blocks :
      List (Block × Bool) → Processor db r → Processor db r × Option Error
  unfolding handle_block
  handle_blocks [] p = (p, none)
  handle_blocks ((block, lost) ∷ blocks) p =
      let (p', failed) = handle_block block lost p in
      elim failed [ some e ↦ (p', some e) | none ↦ handle_blocks blocks p' ]
