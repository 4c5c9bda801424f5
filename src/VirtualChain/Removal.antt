-- ===== src/VirtualChain/Removal.antt =====
-- What the removal of a chain block leaves behind.
use local_rusty_indexer_poc.Prelude.{
  ℕ, ◌≡◌, refl, sym, ap, ◌∙◌, subst, Bool, true, false, ◌||◌, not, Option, none, some, List, [],
  ◌∷◌, is_empty, Result, ok, >>=-eq-ok, for_each, for_each_ok, ok-injective, if◌then◌else◌, checked,
  length, ◌%◌, ◌==◌, panicked,
}
use local_rusty_indexer_poc.Bytes.{Bytes}
use local_rusty_indexer_poc.Store.{Fjall}
use local_rusty_indexer_poc.Store.Update.{fetch_update-old, get-fetch_update_same}
use local_rusty_indexer_poc.Keyspace.{Keyspace}
use local_rusty_indexer_poc.Headers.Compact.{get_daa_score}
use local_rusty_indexer_poc.Processing.Acceptance.{get_by_tx_id, AcceptingBlockResolutionData}
use local_rusty_indexer_poc.Processing.AcceptingBlock
use local_rusty_indexer_poc.Processing.TxIds.{as_tx_ids, view, new}
use local_rusty_indexer_poc.Processing.UnknownTx
use local_rusty_indexer_poc.Processing.UnknownDaa
use local_rusty_indexer_poc.Processing.Pending
use local_rusty_indexer_poc.VirtualChain.Unaccept.{
  unaccept, unaccept_all, handle_chain_block_removal,
}

module _ (db : Fjall) where
  open db use {Tree, get}

  -- whether any of the ids has an entry in the snapshot
  abbrev pub any_entry : Keyspace db → List Bytes → Bool
  any_entry rtx [] = false
  any_entry rtx (id ∷ ids) =
      not (is_empty (get_by_tx_id db rtx.tx_id_to_acceptance id)) || any_entry rtx ids

  -- after some steps: whether one ran is `ran`
  record Cleared (hash : Bytes) (ran : Bool) (wtx wtx' : Keyspace db) : Type 0 where
    unknown : get wtx'.unknown_tx hash ≡ (if ran then none else get wtx.unknown_tx hash)
    waiting :
        get wtx'.unknown_accepting_daa hash
        ≡ (if ran then none else get wtx.unknown_accepting_daa hash)
    accepting : wtx'.acceptance_to_tx_id ≡ wtx.acceptance_to_tx_id

  Cleared-then :
      (hash : Bytes) (r s : Bool) (a b c : Keyspace db)
      → Cleared hash r a b
      → Cleared hash s b c
      → Cleared hash (r || s) a c
  Cleared-then hash r true a b c h k =
      rw (or_true r)
        (record { unknown = k.unknown; waiting = k.waiting; accepting = k.accepting ∙ h.accepting })
    where
      or_true : (r : Bool) → (r || true) ≡ true
      or_true true = refl
      or_true false = refl
  Cleared-then hash true false a b c h k = record {
    unknown = k.unknown ∙ h.unknown;
    waiting = k.waiting ∙ h.waiting;
    accepting = k.accepting ∙ h.accepting;
  }
  Cleared-then hash false false a b c h k = record {
    unknown = k.unknown ∙ h.unknown;
    waiting = k.waiting ∙ h.waiting;
    accepting = k.accepting ∙ h.accepting;
  }

  Cleared-nothing : (hash : Bytes) (wtx : Keyspace db) → Cleared hash false wtx wtx
  Cleared-nothing hash wtx = record { unknown = refl; waiting = refl; accepting = refl }

  unknown_tx-gone :
      (t : Tree) (hash : Bytes) (o : Option Bytes) (t' : Tree)
      → UnknownTx.remove_by_accepting_block_hash db t hash ≡ ok (o, t')
      → get t' hash ≡ none
  unfolding UnknownTx.remove_by_accepting_block_hash
  unknown_tx-gone t hash o t' h =
      let (ids, _, last) =
        >>=-eq-ok _ (λ ids. ok (ids, (db.fetch_update t hash (λ _. none)).1)) h in
      subst (λ (p : Option Bytes × Tree). get p.1 hash ≡ none) (ok-injective last)
        (get-fetch_update_same db t hash (λ _. none))

  unknown_daa-gone :
      (t : Tree) (hash : Bytes) (o : Option Bytes) (t' : Tree)
      → UnknownDaa.remove_by_accepting_block_hash db t hash ≡ ok (o, t')
      → get t' hash ≡ none
  unfolding UnknownDaa.remove_by_accepting_block_hash
  unknown_daa-gone t hash o t' h =
      let (ids, _, last) =
        >>=-eq-ok _ (λ ids. ok (ids, (db.fetch_update t hash (λ _. none)).1)) h in
      subst (λ (p : Option Bytes × Tree). get p.1 hash ≡ none) (ok-injective last)
        (get-fetch_update_same db t hash (λ _. none))

  unaccept-Cleared :
      (hash : Bytes) (daa : Option ℕ) (tx_id : Bytes) (entry : Bytes × AcceptingBlockResolutionData)
      (wtx wtx' : Keyspace db)
      → unaccept db hash daa tx_id entry wtx ≡ ok wtx'
      → Cleared hash true wtx wtx'
  unfolding unaccept
  unaccept-Cleared hash none tx_id (key, value) wtx wtx' h =
      let ((o, daa_tree), daa_gone, rest) =
        >>=-eq-ok (UnknownDaa.remove_by_accepting_block_hash db wtx.unknown_accepting_daa hash) _
          h in
      let ((o', tx_tree), tx_gone, last) =
        >>=-eq-ok (UnknownTx.remove_by_accepting_block_hash db wtx.unknown_tx hash) _ rest in
      subst (Cleared hash true wtx) (ok-injective last) (record {
        unknown = unknown_tx-gone wtx.unknown_tx hash o' tx_tree tx_gone;
        waiting = unknown_daa-gone wtx.unknown_accepting_daa hash o daa_tree daa_gone;
        accepting = refl;
      })
  unaccept-Cleared hash (some score) tx_id (key, value) wtx wtx' h =
      let ((o, daa_tree), daa_gone, rest) =
        >>=-eq-ok (UnknownDaa.remove_by_accepting_block_hash db wtx.unknown_accepting_daa hash) _
          h in
      let ((o', tx_tree), tx_gone, rest') =
        >>=-eq-ok (UnknownTx.remove_by_accepting_block_hash db wtx.unknown_tx hash) _ rest in
      let (pending, _, last) =
        >>=-eq-ok (Pending.remove_pending db wtx.pending_sender_resolution score tx_id) _ rest' in
      subst (Cleared hash true wtx) (ok-injective last) (record {
        unknown = unknown_tx-gone wtx.unknown_tx hash o' tx_tree tx_gone;
        waiting = unknown_daa-gone wtx.unknown_accepting_daa hash o daa_tree daa_gone;
        accepting = refl;
      })

  unaccept_entries-Cleared :
      (hash : Bytes) (daa : Option ℕ) (tx_id : Bytes)
      (entries : List (Result (Bytes × AcceptingBlockResolutionData))) (wtx wtx' : Keyspace db)
      → for_each_ok (unaccept db hash daa tx_id) entries wtx ≡ ok wtx'
      → Cleared hash (not (is_empty entries)) wtx wtx'
  unfolding for_each_ok
  unaccept_entries-Cleared hash daa tx_id [] wtx wtx' h =
      subst (Cleared hash false wtx) (ok-injective h) (Cleared-nothing hash wtx)
  unaccept_entries-Cleared hash daa tx_id (entry ∷ entries) wtx wtx' h =
      let (x, _, ran) = >>=-eq-ok entry _ h in
      let (wtx1, first, later) = >>=-eq-ok (unaccept db hash daa tx_id x wtx) _ ran in
      Cleared-then hash true (not (is_empty entries)) wtx wtx1 wtx'
        (unaccept-Cleared hash daa tx_id x wtx wtx1 first)
        (unaccept_entries-Cleared hash daa tx_id entries wtx1 wtx' later)

  unaccept_all-Cleared :
      (rtx : Keyspace db) (hash : Bytes) (daa : Option ℕ) (ids : List Bytes)
      (wtx wtx' : Keyspace db)
      → unaccept_all db rtx hash daa ids wtx ≡ ok wtx'
      → Cleared hash (any_entry rtx ids) wtx wtx'
  unfolding unaccept_all for_each
  unaccept_all-Cleared rtx hash daa [] wtx wtx' h =
      subst (Cleared hash false wtx) (ok-injective h) (Cleared-nothing hash wtx)
  unaccept_all-Cleared rtx hash daa (tx_id ∷ ids) wtx wtx' h =
      let found = get_by_tx_id db rtx.tx_id_to_acceptance tx_id in
      let (wtx1, first, later) =
        >>=-eq-ok (for_each_ok (unaccept db hash daa tx_id) found wtx) _ h in
      Cleared-then hash (not (is_empty found)) (any_entry rtx ids) wtx wtx1 wtx'
        (unaccept_entries-Cleared hash daa tx_id found wtx wtx1 first)
        (unaccept_all-Cleared rtx hash daa ids wtx1 wtx' later)

  view-some : (v : Bytes) (o : Option Bytes) → view (some v) ≡ ok o → o ≡ some v
  unfolding view new
  view-some v o h =
      let (b, whole, last) = >>=-eq-ok (new v) (λ b. ok (some b)) h in
      sym (ok-injective last) ∙ ap some (sym (checked (length v % 32 == 0) panicked v b whole).1)

  remove_wtx-result :
      (t : Tree) (hash ids : Bytes) (o : Option Bytes) (t' : Tree)
      → get t hash ≡ some ids
      → AcceptingBlock.remove_wtx db t hash ≡ ok (o, t')
      → (o ≡ some ids) × (get t' hash ≡ none)
  unfolding AcceptingBlock.remove_wtx
  remove_wtx-result t hash ids o t' present h =
      let (seen, viewed, last) =
        >>=-eq-ok (view (db.fetch_update t hash (λ _. none)).0)
          (λ ids. ok (ids, (db.fetch_update t hash (λ _. none)).1)) h in
      let same : seen ≡ some ids =
        view-some ids seen (rw (fetch_update-old db t hash (λ _. none), present) at viewed) in
      let parts = ok-injective last in
      (
        sym (ap (λ (p : Option Bytes × Tree). p.0) parts) ∙ same,
        subst (λ (p : Option Bytes × Tree). get p.1 hash ≡ none) parts
            (get-fetch_update_same db t hash (λ _. none)),
      )

  -- Removing a chain block whose accepted ids are `ids` drops the list of its ids; its unknown ids
  -- and the entries that wait for its score are dropped when one of its ids has an acceptance entry
  -- in the snapshot, and stay as they were when none has.
  pub handle_chain_block_removal-clears :
      (rtx wtx wtx' : Keyspace db) (hash ids : Bytes)
      → get wtx.acceptance_to_tx_id hash ≡ some ids
      → handle_chain_block_removal db rtx hash wtx ≡ ok wtx'
      → (get wtx'.acceptance_to_tx_id hash ≡ none)
        × (get wtx'.unknown_tx hash
            ≡ (if any_entry rtx (as_tx_ids ids) then none else get wtx.unknown_tx hash))
        × (get wtx'.unknown_accepting_daa hash
            ≡ (if any_entry rtx (as_tx_ids ids) then none else get wtx.unknown_accepting_daa hash))
  unfolding handle_chain_block_removal
  handle_chain_block_removal-clears rtx wtx wtx' hash ids present h =
      let ((o, tree), removed, rest) =
        >>=-eq-ok (AcceptingBlock.remove_wtx db wtx.acceptance_to_tx_id hash) _ h in
      let (old, gone) = remove_wtx-result wtx.acceptance_to_tx_id hash ids o tree present removed in
      let wtx1 : Keyspace db = record wtx { acceptance_to_tx_id = tree } in
      let (daa, _, ran) =
        >>=-eq-ok (get_daa_score db rtx.block_compact_header hash) _ (rw old at rest) in
      let c = unaccept_all-Cleared rtx hash daa (as_tx_ids ids) wtx1 wtx' ran in
      (rw c.accepting gone, c.unknown, c.waiting)
