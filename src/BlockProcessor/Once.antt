-- ===== src/BlockProcessor/Once.antt =====
-- A block is processed once while it is remembered.
use local_rusty_indexer_poc.Prelude.{
  ◌≡◌, refl, sym, ap, ◌∙◌, ◌<◌, Bool, true, false, Option, none, some, List, [], ◌∷◌, map, length,
  length-map, Result, ok, err, Error, Bool-cases, inl, inr,
}
use local_rusty_indexer_poc.Bytes.{Bytes}
use local_rusty_indexer_poc.FifoSet.{RingSet, FifoSet}
use local_rusty_indexer_poc.FifoSet as Fifo
use local_rusty_indexer_poc.FifoSet.Window.{IsValid, insert_all, contains-insert_all}
use local_rusty_indexer_poc.Store.{Fjall}
use local_rusty_indexer_poc.Keyspace.{Keyspace}
use local_rusty_indexer_poc.BlockProcessor.Handlers.{Chain, Block, Running}
use local_rusty_indexer_poc.BlockProcessor.{
  Processor, handle_transactions, finish_block, handle_block, handle_blocks, write_headers,
}

module _ (db : Fjall) (r : RingSet) (chain : Chain) where
  insert-old :
      (s : FifoSet r) (key : Bytes) → Fifo.contains r s key ≡ true → (Fifo.insert r s key).0 ≡ s
  unfolding Fifo.insert Fifo.contains
  insert-old s key h = rw h refl

  handle_block-seen :
      (block : Block) (lost : Bool) (p : Processor db r)
      → Fifo.contains r p.processed_blocks block.hash ≡ true
      → handle_block db r chain block lost p ≡ (p, none)
  unfolding handle_block
  handle_block-seen block lost p h = rw h refl

  abbrev begin : Block → Processor db r → Running db r
  begin block p = record {
    processed_txs = p.processed_txs;
    wtx = write_headers db r chain block p.keyspace;
    contextual_messages = p.contextual_messages;
  }

  finished-remembers :
      (block : Block) (lost : Bool) (p p' : Processor db r) (s : Running db r)
      (skipped : List Bytes) (finished : Result (Keyspace db))
      → Fifo.contains r p.processed_blocks block.hash ≡ false
      → handle_transactions db r chain block block.transactions (begin block p) ≡ (s, ok skipped)
      → finish_block db r chain block skipped lost s.wtx ≡ finished
      → handle_block db r chain block lost p ≡ (p', none)
      → p'.processed_blocks ≡ (Fifo.insert r p.processed_blocks block.hash).0
  unfolding handle_block
  finished-remembers block lost p p' s skipped (err e) fresh ran done h =
      absurd (cc (rw (fresh, ran, ran, done) at h))
  finished-remembers block lost p p' s skipped (ok ks) fresh ran done h = sym (
      ap (λ (x : Processor db r × Option Error). x.0.processed_blocks)
        (rw (fresh, ran, ran, done) at h))

  ran-remembers :
      (block : Block) (lost : Bool) (p p' : Processor db r) (s : Running db r)
      (ran : Result (List Bytes))
      → Fifo.contains r p.processed_blocks block.hash ≡ false
      → handle_transactions db r chain block block.transactions (begin block p) ≡ (s, ran)
      → handle_block db r chain block lost p ≡ (p', none)
      → p'.processed_blocks ≡ (Fifo.insert r p.processed_blocks block.hash).0
  unfolding handle_block
  ran-remembers block lost p p' s (err e) fresh eq h = absurd (cc (rw (fresh, eq) at h))
  ran-remembers block lost p p' s (ok skipped) fresh eq h =
      finished-remembers block lost p p' s skipped
        (finish_block db r chain block skipped lost s.wtx) fresh eq refl h

  handle_block-remembers :
      (block : Block) (lost : Bool) (p p' : Processor db r)
      → handle_block db r chain block lost p ≡ (p', none)
      → p'.processed_blocks ≡ (Fifo.insert r p.processed_blocks block.hash).0
  handle_block-remembers block lost p p' h =
      elim (Bool-cases (Fifo.contains r p.processed_blocks block.hash)) [
        | inl old ↦
            ap (λ (x : Processor db r × Option Error). x.0.processed_blocks)
              (sym h ∙ handle_block-seen block lost p old)
            ∙ sym (insert-old p.processed_blocks block.hash old)
        | inr new ↦
            let run = handle_transactions db r chain block block.transactions (begin block p) in
            ran-remembers block lost p p' run.0 run.1 new refl h
      ]

  abbrev pub hashes : List (Block × Bool) → List Bytes
  hashes blocks = map (λ (b : Block × Bool). b.0.hash) blocks

  -- the first block of a run without an error, and the rest
  handle_blocks-first :
      (block : Block) (lost : Bool) (blocks : List (Block × Bool)) (p p' p1 : Processor db r)
      (failed : Option Error)
      → handle_block db r chain block lost p ≡ (p1, failed)
      → handle_blocks db r chain ((block, lost) ∷ blocks) p ≡ (p', none)
      → (handle_block db r chain block lost p ≡ (p1, none))
        × (handle_blocks db r chain blocks p1 ≡ (p', none))
  unfolding handle_blocks
  handle_blocks-first block lost blocks p p' p1 (some e) eq h =
      absurd (cc (rw (handle_blocks, eq) at h))
  handle_blocks-first block lost blocks p p' p1 none eq h = (eq, rw (handle_blocks, eq, eq) at h)

  handle_blocks-remembers :
      (blocks : List (Block × Bool)) (p p' : Processor db r)
      → handle_blocks db r chain blocks p ≡ (p', none)
      → p'.processed_blocks ≡ insert_all r p.processed_blocks (hashes blocks)
  unfolding handle_blocks insert_all
  handle_blocks-remembers [] p p' h =
      sym (ap (λ (x : Processor db r × Option Error). x.0.processed_blocks) h)
  handle_blocks-remembers ((block, lost) ∷ blocks) p p' h =
      let (p1, failed) = handle_block db r chain block lost p in
      let (now, later) = handle_blocks-first block lost blocks p p' p1 failed refl h in
      handle_blocks-remembers blocks p1 p' later
      ∙ ap (λ s. insert_all r s (hashes blocks)) (handle_block-remembers block lost p p1 now)

  -- A block that was handled without an error is handled once: while fewer further blocks follow
  -- than the set of processed blocks has room for, whatever they are, handling it again changes
  -- nothing and reports no error.
  pub handle_block-once :
      (block : Block) (lost lost' : Bool) (blocks : List (Block × Bool)) (p p1 p2 : Processor db r)
      → IsValid r p.processed_blocks
      → Fifo.contains r p.processed_blocks block.hash ≡ false
      → handle_block db r chain block lost p ≡ (p1, none)
      → handle_blocks db r chain blocks p1 ≡ (p2, none)
      → length blocks < r.capacity p.processed_blocks.set
      → handle_block db r chain block lost' p2 ≡ (p2, none)
  handle_block-once block lost lost' blocks p p1 p2 valid fresh first later few =
      let now = handle_block-remembers block lost p p1 first in
      let after = handle_blocks-remembers blocks p1 p2 later in
      handle_block-seen block lost' p2 (
        rw (after, now)
          (contains-insert_all r p.processed_blocks block.hash (hashes blocks) valid fresh
            (rw (length-map (λ (b : Block × Bool). b.0.hash) blocks) few)))
