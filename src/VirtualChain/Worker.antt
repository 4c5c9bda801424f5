-- ===== src/VirtualChain/Worker.antt =====
-- The loop of `VirtualChainProcessor::process` of indexer-lib/src/virtual_chain_processor.rs.
use local_rusty_indexer_poc.Prelude.{
  ℕ, Bool, Option, none, some, List, [], ◌∷◌, ok, err, channel_closed,
}
use local_rusty_indexer_poc.Keyspace.{Keyspace}
use local_rusty_indexer_poc.Resolver.{Status, idle, returned, failed}
use local_rusty_indexer_poc.Store.{Fjall}
use local_rusty_indexer_poc.VirtualChain.{VirtualChainChangedNotificationAndBlueWork, handle_vcc}

-- a change of the chain, with the fate of its commit
abbrev pub Change : Type 0
Change = VirtualChainChangedNotificationAndBlueWork × Bool

-- what `select_input` gives: a change; the shutdown signal, with what waits in the channel then; or
-- the error of a closed channel
pub data VccOrShutdown : Type 0 where
  vcc : Change → VccOrShutdown
  shutdown : List Change → VccOrShutdown
  closed : VccOrShutdown

module _ (db : Fjall) (attempts : ℕ) where
  unfoldable pub handle_change : Change → Keyspace db → Keyspace db × Option Status
  unfolding handle_vcc
  handle_change (change, lost) ks = elim (handle_vcc db attempts lost change ks) [
    | ok ks' ↦ (ks', none)
    | err e ↦ (ks, some (failed e))
  ]

  -- an error drops the write transaction and ends the worker
  unfoldable pub drain : List Change → Keyspace db → Keyspace db × Status
  unfolding handle_change
  drain [] ks = (ks, returned)
  drain (c ∷ waiting) ks =
      let (ks', status) = handle_change c ks in
      elim status [ none ↦ drain waiting ks' | some ended ↦ (ks', ended) ]

  -- the inputs that are left over are not met
  unfoldable pub process : List VccOrShutdown → Keyspace db → Keyspace db × Status
  unfolding handle_change drain
  process [] ks = (ks, idle)
  process (vcc c ∷ inputs) ks =
      let (ks', status) = handle_change c ks in
      elim status [ none ↦ process inputs ks' | some ended ↦ (ks', ended) ]
  process (shutdown waiting ∷ inputs) ks = drain waiting ks
  process (closed ∷ inputs) ks = (ks, failed channel_closed)
