-- ===== src/VirtualChain/Acceptance.antt =====
-- What an accepted block leaves behind.
use mathlib.Core.List.{append-nil, append_assoc}
use local_rusty_indexer_poc.Processing.UnknownDaa
use local_rusty_indexer_poc.Prelude.{
  ℕ, ◌≡◌, refl, sym, ap, ◌∙◌, subst, not, true, false, Option, none, some, List, [], ◌∷◌, ◌++◌,
  is_empty, retain, ok, >>=-eq-ok, for_each, for_each_ok, ok-injective, if◌then◌else◌, Bool-cases,
  inl, inr,
}
use local_rusty_indexer_poc.Bytes.{Bytes}
use local_rusty_indexer_poc.Store.{Fjall}
use local_rusty_indexer_poc.Store.Update.{get-insert_same}
use local_rusty_indexer_poc.Keys.Layout.{join}
use local_rusty_indexer_poc.Keyspace.{Keyspace}
use local_rusty_indexer_poc.Headers.Compact.{get_daa_score}
use local_rusty_indexer_poc.Processing.Acceptance.{get_by_tx_id}
use local_rusty_indexer_poc.Processing.AcceptingBlock
use local_rusty_indexer_poc.Processing.Skip
use local_rusty_indexer_poc.Processing.Skip.{is_some}
use local_rusty_indexer_poc.Processing.UnknownTx
use local_rusty_indexer_poc.VirtualChain.Accept.{
  AcceptedTransactionIds, Accepting, accept_entry, accept_tx, finish_accepting, not_skipped,
  handle_accepted_block,
}
use local_rusty_indexer_poc.VirtualChain.Visits.{
  EntriesKept, EntriesKept-trans, EntriesKept-refl, Visited, accept_entries-Visited,
}

module _ (db : Fjall) where
  open db use {Tree, get}

  -- the ids without a mark to skip in the snapshot, in order
  abbrev pub unmarked : Keyspace db → List Bytes → List Bytes
  unmarked rtx [] = []
  unmarked rtx (id ∷ ids) = elim (get rtx.skip_tx id) [
    | some _ ↦ unmarked rtx ids
    | none ↦ id ∷ unmarked rtx ids
  ]

  not_skipped-unmarked :
      (rtx : Keyspace db) (ids : List Bytes) → not_skipped db rtx ids ≡ unmarked rtx ids
  unfolding not_skipped Skip.should_skip
  not_skipped-unmarked rtx [] = refl
  not_skipped-unmarked rtx (id ∷ ids) = by_mark (get rtx.skip_tx id) (not_skipped-unmarked rtx ids)
    where
      by_mark :
          (mark : Option Bytes)
          → not_skipped db rtx ids ≡ unmarked rtx ids
          → (if not (is_some mark) then id ∷ not_skipped db rtx ids else not_skipped db rtx ids)
            ≡ (elim mark as (λ _. List Bytes) [
              | some _ ↦ unmarked rtx ids
              | none ↦ id ∷ unmarked rtx ids
            ])
      by_mark none h = ap (◌∷◌ id) h
      by_mark (some _) h = h

  -- the ids without any entry in the snapshot, in order
  abbrev pub unknown_ids : Keyspace db → List Bytes → List Bytes
  unknown_ids rtx ids = retain (λ id. is_empty (get_by_tx_id db rtx.tx_id_to_acceptance id)) ids

  -- the collected ids and entries after some transactions
  record Collected (rtx : Keyspace db) (daa : Option ℕ) (ids : List Bytes) (s s' : Accepting db)
      : Type 0 where
    unknown : s'.unknown_tx_ids ≡ s.unknown_tx_ids ++ unknown_ids rtx ids
    entries : EntriesKept db daa s.entries s'.entries

  mark_unknown :
      (rtx : Keyspace db) (daa : Option ℕ) (tx_id : Bytes) (s s' : Accepting db)
      → Visited db daa
          (not (is_empty (get_by_tx_id db rtx.tx_id_to_acceptance tx_id)))
          (record s { is_required = false })
          s'
      → Collected rtx daa (tx_id ∷ []) s (
          if s'.is_required
          then s'
          else record s' { unknown_tx_ids = s'.unknown_tx_ids ++ tx_id ∷ [] })
  mark_unknown rtx daa tx_id s s' v =
      elim (Bool-cases (is_empty (get_by_tx_id db rtx.tx_id_to_acceptance tx_id))) [
        | inl e ↦
            let not_required : s'.is_required ≡ false = v.required ∙ rw e refl in
            rw not_required (record {
              unknown = ap (λ ids. ids ++ tx_id ∷ []) v.unknown ∙ rw e refl;
              entries = v.entries;
            })
        | inr e ↦
            let is_required : s'.is_required ≡ true = v.required ∙ rw e refl in
            rw is_required (record {
              unknown = v.unknown ∙ sym (append-nil s.unknown_tx_ids) ∙ rw e refl;
              entries = v.entries;
            })
      ]

  accept_tx-Collected :
      (rtx : Keyspace db) (hash : Bytes) (daa : Option ℕ) (tx_id : Bytes) (s s' : Accepting db)
      → accept_tx db rtx hash daa tx_id s ≡ ok s'
      → Collected rtx daa (tx_id ∷ []) s s'
  unfolding accept_tx
  accept_tx-Collected rtx hash daa tx_id s s' h =
      let found = get_by_tx_id db rtx.tx_id_to_acceptance tx_id in
      let (s1, ran, last) =
        >>=-eq-ok
          (for_each_ok (accept_entry db hash daa tx_id) found (record s { is_required = false })) _
          h in
      subst (Collected rtx daa (tx_id ∷ []) s) (ok-injective last) (
        mark_unknown rtx daa tx_id s s1 (
          accept_entries-Visited db hash daa tx_id found (record s { is_required = false }) s1 ran))

  accept_all-Collected :
      (rtx : Keyspace db) (hash : Bytes) (daa : Option ℕ) (ids : List Bytes) (s s' : Accepting db)
      → for_each (accept_tx db rtx hash daa) ids s ≡ ok s'
      → Collected rtx daa ids s s'
  unfolding for_each
  accept_all-Collected rtx hash daa [] s s' h =
      subst (Collected rtx daa [] s) (ok-injective h) (record {
        unknown = sym (append-nil s.unknown_tx_ids);
        entries = EntriesKept-refl db daa s.entries;
      })
  accept_all-Collected rtx hash daa (tx_id ∷ ids) s s' h =
      let (s1, first, later) = >>=-eq-ok (accept_tx db rtx hash daa tx_id s) _ h in
      let c = accept_tx-Collected rtx hash daa tx_id s s1 first in
      let d = accept_all-Collected rtx hash daa ids s1 s' later in
      record {
        unknown =
            d.unknown
            ∙ ap (λ l. l ++ unknown_ids rtx ids) c.unknown
            ∙ append_assoc s.unknown_tx_ids (unknown_ids rtx (tx_id ∷ [])) (unknown_ids rtx ids)
            ∙ ap (λ l. s.unknown_tx_ids ++ l) (one_more rtx tx_id ids);
        entries = EntriesKept-trans db daa s.entries s1.entries s'.entries c.entries d.entries;
      }
    where
      one_more :
          (rtx : Keyspace db) (tx_id : Bytes) (ids : List Bytes)
          → unknown_ids rtx (tx_id ∷ []) ++ unknown_ids rtx ids ≡ unknown_ids rtx (tx_id ∷ ids)
      one_more rtx tx_id ids =
          elim (Bool-cases (is_empty (get_by_tx_id db rtx.tx_id_to_acceptance tx_id))) [
            | inl e ↦ rw e refl
            | inr e ↦ rw e refl
          ]

  -- what the partition of unknown scores is asked to hold for the block
  abbrev pub Waiting : Option ℕ → Bytes → Bytes → db.Tree → Type 0
  Waiting none hash entries t = get t hash ≡ some entries
  Waiting (some score) hash entries t = Unit {0}

  finish_accepting-records :
      (hash : Bytes) (daa : Option ℕ) (filtered : List Bytes) (s : Accepting db) (attempts : ℕ)
      → EntriesKept db daa (UnknownDaa.new_entries attempts) s.entries
      → (wtx' : Keyspace db) × (finish_accepting db hash daa filtered s ≡ ok wtx')
        × (get wtx'.acceptance_to_tx_id hash ≡ some (join filtered))
        × (get wtx'.unknown_tx hash ≡ some (join s.unknown_tx_ids))
        × Waiting daa hash s.entries wtx'.unknown_accepting_daa
  unfolding finish_accepting AcceptingBlock.insert_wtx UnknownTx.insert_wtx UnknownDaa.insert_wtx
      UnknownDaa.entries_is_empty UnknownDaa.new_entries
  finish_accepting-records hash none filtered s attempts kept = (
    _,
    refl,
    get-insert_same db s.wtx.acceptance_to_tx_id hash (join filtered),
    get-insert_same db s.wtx.unknown_tx hash (join s.unknown_tx_ids),
    get-insert_same db s.wtx.unknown_accepting_daa hash s.entries,
  )
  finish_accepting-records hash (some score) filtered s attempts kept = (
    record s.wtx {
      acceptance_to_tx_id = AcceptingBlock.insert_wtx db s.wtx.acceptance_to_tx_id hash filtered;
      unknown_tx = UnknownTx.insert_wtx db s.wtx.unknown_tx hash s.unknown_tx_ids;
    },
    rw kept refl,
    get-insert_same db s.wtx.acceptance_to_tx_id hash (join filtered),
    get-insert_same db s.wtx.unknown_tx hash (join s.unknown_tx_ids),
    tt,
  )

  -- the state in which the loop over a block's transactions starts
  abbrev pub start : ℕ → Keyspace db → Accepting db
  start attempts wtx = record {
    wtx = wtx;
    entries = UnknownDaa.new_entries attempts;
    unknown_tx_ids = [];
    is_required = false;
  }

  -- When a block's header can be read and the loop over its transactions ends without an error,
  -- accepting the block succeeds (its last assertion holds): the block's entry lists the ids that
  -- are not marked to skip, in order, the block's unknown ids are exactly those of them without any
  -- acceptance entry in the snapshot, and with no known score its collected entries wait for one.
  pub handle_accepted_block-records :
      (attempts : ℕ) (rtx wtx : Keyspace db) (accepted : AcceptedTransactionIds) (daa : Option ℕ)
      (s : Accepting db)
      → get_daa_score db rtx.block_compact_header accepted.accepting_block_hash ≡ ok daa
      → for_each
          (accept_tx db rtx accepted.accepting_block_hash daa)
          (unmarked rtx accepted.accepted_transaction_ids)
          (start attempts wtx)
        ≡ ok s
      → (wtx' : Keyspace db) × (handle_accepted_block db attempts rtx accepted wtx ≡ ok wtx')
        × (get wtx'.acceptance_to_tx_id accepted.accepting_block_hash
            ≡ some (join (unmarked rtx accepted.accepted_transaction_ids)))
        × (get wtx'.unknown_tx accepted.accepting_block_hash
            ≡ some (join (unknown_ids rtx (unmarked rtx accepted.accepted_transaction_ids))))
        × Waiting daa accepted.accepting_block_hash s.entries wtx'.unknown_accepting_daa
  unfolding handle_accepted_block
  handle_accepted_block-records attempts rtx wtx accepted daa s score ran =
      let filtered = unmarked rtx accepted.accepted_transaction_ids in
      let c =
        accept_all-Collected rtx accepted.accepting_block_hash daa filtered (start attempts wtx) s
          ran in
      let (wtx', done, recorded, unknown, waiting) =
        finish_accepting-records accepted.accepting_block_hash daa filtered s attempts c.entries in
      (
        wtx',
        rw (score, not_skipped-unmarked rtx accepted.accepted_transaction_ids, ran) done,
        recorded,
        unknown ∙ ap (λ ids. some (join ids)) c.unknown,
        waiting,
      )
