-- ===== src/Periodic/UnknownResolved.antt =====
-- What a pass over the unknown transactions of a block leaves of them.
use local_rusty_indexer_poc.Prelude.{
  ℕ, ◌≡◌, refl, sym, ap, ◌∙◌, Bool, true, false, Option, none, some, List, [], ◌∷◌, All, is_empty,
  retain, if◌then◌else◌, Bool-cases, inl, inr, Result, ok, err, panicked,
}
use local_rusty_indexer_poc.Bytes.{Bytes}
use local_rusty_indexer_poc.Keys.Layout.{join}
use local_rusty_indexer_poc.Store.{Fjall}
use local_rusty_indexer_poc.Store.Update.{get-fetch_update_same}
use local_rusty_indexer_poc.Keyspace.{Keyspace}
use local_rusty_indexer_poc.Processing.TxIds.{IsId, as_tx_ids-join, new-join, view}
use local_rusty_indexer_poc.Processing.UnknownTx.{
  update_by_accepting_block_hash, updated, act, update, delete,
}
use local_rusty_indexer_poc.Processing.UnknownDaa.{
  PaddedResolutionEntry, new_entries, entries_from, as_entry_slice, extended_entries,
  entries_is_empty, extend_from_slice, extend_by_accepting_block_hash,
}
use local_rusty_indexer_poc.Periodic.UnknownPassed.{
  IsReadableTx, remains, some_gone, resolve_txs-Passed, none_gone,
}
use local_rusty_indexer_poc.Periodic.UnknownTxs.{
  Resolving, resolve_unknown_block, update_unknown, extend_waiting, keep_remaining,
}

module _ (db : Fjall) where
  open db use {get}

  -- the value of the block's unknown ids after the pass
  abbrev pub left_over : List Bytes → List Bytes → Option Bytes
  left_over [] remaining = some []
  left_over (id ∷ ids) remaining = if is_empty remaining then none else some (join remaining)

  acted :
      (remaining : List Bytes) (old : Bytes)
      → act old (if is_empty remaining then delete else update remaining)
        ≡ (if is_empty remaining then none else some (join remaining))
  unfolding act
  acted [] old = refl
  acted (id ∷ remaining) old = refl

  update_unknown-left_over :
      (hash : Bytes) (ids remaining : List Bytes) (processed : Bool) (t : db.Tree)
      → All IsId ids
      → get t hash ≡ some (join ids)
      → (processed ≡ false → remaining ≡ ids)
      → (ids ≡ [] → processed ≡ false)
      → (t' : db.Tree) × (update_unknown db hash remaining processed t ≡ ok t')
        × (get t' hash ≡ left_over ids remaining)
  unfolding update_unknown update_by_accepting_block_hash updated act view
  update_unknown-left_over hash [] remaining false t h stored same untouched = (t, refl, stored)
  update_unknown-left_over hash [] remaining true t h stored same untouched =
      absurd (cc (untouched refl))
  update_unknown-left_over hash (id ∷ ids) remaining false t h stored same untouched =
      (t, refl, rw (same refl) stored)
  update_unknown-left_over hash (id ∷ ids) remaining true t h stored same untouched =
      rw (stored, new-join (id ∷ ids) h)
        (
          _,
          refl,
          get-fetch_update_same db t hash (updated (keep_remaining db remaining))
              ∙ rw stored (acted remaining (join (id ∷ ids))),
        )

  -- what waits for the block's score can be extended
  abbrev pub IsExtensible : Option Bytes → Type 0
  IsExtensible none = Unit {0}
  IsExtensible (some v) =
      (entries : List PaddedResolutionEntry) × (entries_from v ≡ ok v)
      × (as_entry_slice v ≡ ok entries)

  extended_by :
      (extended : Bytes) (read : Result (List PaddedResolutionEntry))
      (entries : List PaddedResolutionEntry)
      → read ≡ ok entries
      → (v : Bytes) × ((elim read as (λ _. Result Bytes) [
        | ok entries' ↦ ok (extend_from_slice extended entries')
        | err _ ↦ err panicked
      ])
          ≡ ok v)
  extended_by extended (ok entries') entries h = (extend_from_slice extended entries', refl)
  extended_by extended (err e) entries h = cc

  extended_total :
      (extended : Bytes) (old : Option Bytes)
      → IsExtensible old
      → (v : Bytes) × (extended_entries extended old ≡ ok v)
  unfolding extended_entries
  extended_total extended none h = (extended, refl)
  extended_total extended (some v) (entries, whole, read) =
      rw whole (extended_by extended (as_entry_slice v) entries read)

  extend_waiting_total :
      (hash extended : Bytes) (t : db.Tree)
      → IsExtensible (get t hash)
      → (t' : db.Tree) × (extend_waiting db hash extended t ≡ ok t')
  unfolding extend_waiting extend_by_accepting_block_hash
  extend_waiting_total hash extended t h =
      let (v, ran) = extended_total extended (get t hash) h in
      elim (Bool-cases (entries_is_empty extended)) [
        | inl e ↦ (t, rw e refl)
        | inr e ↦ rw (e, ran) (_, refl)
      ]

  -- A pass over a block's unknown ids succeeds when each acceptance entry of theirs can be read and
  -- what waits for the block's score, if anything, can be extended. Afterwards exactly those ids are
  -- unknown, in order, that are not marked to skip and of which no entry carries data; if there were
  -- some and none is left, the block's entry is gone. A block without unknown ids keeps its entry,
  -- an empty one.
  pub resolve_unknown_block-left_over :
      (attempts : ℕ) (rtx wtx : Keyspace db) (hash : Bytes) (ids : List Bytes)
      → All IsId ids
      → All (IsReadableTx db rtx) ids
      → get wtx.unknown_tx hash ≡ some (join ids)
      → IsExtensible (get wtx.unknown_accepting_daa hash)
      → (wtx' : Keyspace db) × (resolve_unknown_block db attempts rtx (hash, join ids) wtx
          ≡ ok wtx')
        × (get wtx'.unknown_tx hash ≡ left_over ids (retain (remains db rtx) ids))
  unfolding resolve_unknown_block
  resolve_unknown_block-left_over attempts rtx wtx hash ids sized readable stored waiting =
      let start : Resolving db = record {
        acceptance = wtx.tx_id_to_acceptance;
        extended_daa_requests = new_entries attempts;
        remaining_tx_ids = [];
        processed_any = false;
        found_resolution = false;
      } in
      let (s, ran, p) = resolve_txs-Passed db rtx hash ids start readable in
      let (unknown, written, left) =
        update_unknown-left_over hash ids s.remaining_tx_ids s.processed_any wtx.unknown_tx sized
          stored (λ e. p.remaining ∙ none_gone db rtx ids (sym p.processed ∙ e))
          (λ e. p.processed ∙ ap (some_gone db rtx) e) in
      let (daa, extended) =
        extend_waiting_total hash s.extended_daa_requests wtx.unknown_accepting_daa waiting in
      rw (as_tx_ids-join ids sized, ran, written, extended)
        (_, refl, left ∙ ap (left_over ids) p.remaining)
