-- ===== src/BlockProcessor/Worker.antt =====
-- The loop of `BlockProcessor::process` of indexer-lib/src/block_processor.rs.
use local_rusty_indexer_poc.Prelude.{Bool, Option, none, some, List, [], ◌∷◌, Error, channel_closed}
use local_rusty_indexer_poc.FifoSet.{RingSet}
use local_rusty_indexer_poc.Store.{Fjall}
use local_rusty_indexer_poc.BlockProcessor.{Processor, handle_blocks}
use local_rusty_indexer_poc.BlockProcessor.Handlers.{Chain, Block}
use local_rusty_indexer_poc.Resolver.{Status, idle, returned, failed}

-- what `select_input` gives: some blocks, each with the fate of its commit; the shutdown signal,
-- with what waits in the channel then; or the error of a closed channel
pub data BlocksOrShutdown : Type 0 where
  blocks : List (Block × Bool) → BlocksOrShutdown
  shutdown : List (List (Block × Bool)) → BlocksOrShutdown
  closed : BlocksOrShutdown

module _ (db : Fjall) (r : RingSet) (chain : Chain) where
  unfoldable pub drain : List (List (Block × Bool)) → Processor db r → Processor db r × Option Error
  unfolding handle_blocks
  drain [] p = (p, none)
  drain (bs ∷ waiting) p =
      let (p', stopped) = handle_blocks db r chain bs p in
      elim stopped [ some e ↦ (p', some e) | none ↦ drain waiting p' ]

  -- how an input leaves the loop, from what its handler gives; `none` while it goes on
  abbrev pub or_go_on : Option Error → Option Status
  or_go_on none = none
  or_go_on (some e) = some (failed e)

  abbrev pub or_return : Option Error → Option Status
  or_return none = some returned
  or_return (some e) = some (failed e)

  unfoldable pub handle_input : BlocksOrShutdown → Processor db r → Processor db r × Option Status
  unfolding drain
  handle_input (blocks bs) p =
      let (p', stopped) = handle_blocks db r chain bs p in (p', or_go_on stopped)
  handle_input (shutdown waiting) p = let (p', stopped) = drain waiting p in (p', or_return stopped)
  handle_input closed p = (p, some (failed channel_closed))

  -- the inputs that are left over are not met
  unfoldable pub process : List BlocksOrShutdown → Processor db r → Processor db r × Status
  unfolding handle_input
  process [] p = (p, idle)
  process (i ∷ inputs) p =
      let (p', status) = handle_input i p in
      elim status [ none ↦ process inputs p' | some ended ↦ (p', ended) ]
