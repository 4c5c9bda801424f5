-- ===== src/Processing/Removal.antt =====
-- What `remove_by_tx_id` of the acceptance partition leaves.
use local_rusty_indexer_poc.Prelude.{◌≡◌, refl, none, [], if◌then◌else◌}
use local_rusty_indexer_poc.Bytes.{Bytes}
use local_rusty_indexer_poc.Store.{Fjall, starts_with}
use local_rusty_indexer_poc.Store.Scan.{get-remove_all-prefix}
use local_rusty_indexer_poc.Store.Update.{prefix_none}
use local_rusty_indexer_poc.Processing.Acceptance.{remove_by_tx_id, get_by_tx_id}

module _ (db : Fjall) where
  open db use {Tree, get}

  get-remove_by_tx_id :
      (t : Tree) (tx_id j : Bytes)
      → get (remove_by_tx_id db t tx_id) j ≡ (if starts_with tx_id j then none else get t j)
  unfolding remove_by_tx_id
  get-remove_by_tx_id t tx_id j = get-remove_all-prefix db t tx_id j

  -- Removing a transaction from the acceptance partition leaves every key that does not start with
  -- its id as it was, and nothing that `get_by_tx_id` finds for it, whatever the store held.
  pub remove_by_tx_id-exact :
      (t : Tree) (tx_id : Bytes)
      → ((j : Bytes)
          → get (remove_by_tx_id db t tx_id) j ≡ (if starts_with tx_id j then none else get t j))
        × (get_by_tx_id db (remove_by_tx_id db t tx_id) tx_id ≡ [])
  unfolding get_by_tx_id
  remove_by_tx_id-exact t tx_id = (
    get-remove_by_tx_id t tx_id,
    rw
        (prefix_none db (remove_by_tx_id db t tx_id) tx_id
          (λ j e. rw e at (get-remove_by_tx_id t tx_id j)))
        refl,
  )
