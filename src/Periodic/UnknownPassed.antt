-- ===== src/Periodic/UnknownPassed.antt =====
-- What the loop over a block's unknown ids does to its variables.
use mathlib.Core.List.{append-nil, append_assoc}
use local_rusty_indexer_poc.Prelude.{
  ◌≡◌, refl, sym, ap, ◌∙◌, Bool, true, false, not, ◌&&◌, ◌||◌, List, [], ◌∷◌, ◌++◌, All, retain,
  Bool-cases, inl, inr, ok, for_each,
}
use local_rusty_indexer_poc.Bytes.{Bytes}
use local_rusty_indexer_poc.Store.{Fjall}
use local_rusty_indexer_poc.Keyspace.{Keyspace}
use local_rusty_indexer_poc.Processing.Acceptance.{get_by_tx_id}
use local_rusty_indexer_poc.Processing.Skip.{should_skip}
use local_rusty_indexer_poc.Periodic.UnknownEntries.{
  IsReadable, has_data, or_assoc, or_false, or_true, resolve_entries-Found,
}
use local_rusty_indexer_poc.Periodic.UnknownTxs.{Resolving, resolve_tx}

module _ (db : Fjall) where
  -- whether an id remains unknown: it is not skipped, and none of its entries carries data
  abbrev pub remains : Keyspace db → Bytes → Bool
  remains rtx tx_id =
      not (should_skip db rtx.skip_tx tx_id)
      && not (has_data (get_by_tx_id db rtx.tx_id_to_acceptance tx_id))

  abbrev pub IsReadableTx : Keyspace db → Bytes → Type 0
  IsReadableTx rtx tx_id = All IsReadable (get_by_tx_id db rtx.tx_id_to_acceptance tx_id)

  -- whether some id does not remain
  abbrev pub some_gone : Keyspace db → List Bytes → Bool
  some_gone rtx [] = false
  some_gone rtx (id ∷ ids) = not (remains rtx id) || some_gone rtx ids

  pub record Passed (rtx : Keyspace db) (ids : List Bytes) (s s' : Resolving db) : Type 0 where
    pub remaining : s'.remaining_tx_ids ≡ s.remaining_tx_ids ++ retain (remains rtx) ids
    pub processed : s'.processed_any ≡ (s.processed_any || some_gone rtx ids)

  resolve_tx-Passed :
      (rtx : Keyspace db) (hash tx_id : Bytes) (s : Resolving db)
      → IsReadableTx rtx tx_id
      → (s' : Resolving db) × (resolve_tx db rtx hash tx_id s ≡ ok s')
        × Passed rtx (tx_id ∷ []) s s'
  unfolding resolve_tx
  resolve_tx-Passed rtx hash tx_id s h = elim (Bool-cases (should_skip db rtx.skip_tx tx_id)) [
    | inl skip ↦ rw skip (
      _,
      refl,
      record {
        remaining = rw skip (sym (append-nil s.remaining_tx_ids));
        processed = rw skip (sym (or_true s.processed_any));
      },
    )
    | inr kept ↦
        let (s1, ran, f) =
          resolve_entries-Found db hash tx_id (get_by_tx_id db rtx.tx_id_to_acceptance tx_id)
            (record s { found_resolution = false }) h in
        elim (Bool-cases (has_data (get_by_tx_id db rtx.tx_id_to_acceptance tx_id))) [
          | inl data_found ↦
              let now : s1.found_resolution ≡ true = f.found ∙ data_found in
              rw (kept, ran, now)
                (
                  s1,
                  refl,
                  record {
                    remaining =
                        rw (kept, data_found) (f.remaining ∙ sym (append-nil s.remaining_tx_ids));
                    processed = rw (kept, data_found) (f.processed ∙ rw data_found refl);
                  },
                )
          | inr nothing ↦
              let now : s1.found_resolution ≡ false = f.found ∙ nothing in
              rw (kept, ran, now)
                (
                  _,
                  refl,
                  record {
                    remaining = rw (kept, nothing) (ap (λ l. l ++ tx_id ∷ []) f.remaining);
                    processed = rw (kept, nothing) (f.processed ∙ rw nothing refl);
                  },
                )
        ]
  ]

  one_more :
      (rtx : Keyspace db) (id : Bytes) (ids : List Bytes)
      → retain (remains rtx) (id ∷ []) ++ retain (remains rtx) ids ≡ retain (remains rtx) (id ∷ ids)
  one_more rtx id ids = elim (Bool-cases (remains rtx id)) [ inl e ↦ rw e refl | inr e ↦ rw e refl ]

  pub resolve_txs-Passed :
      (rtx : Keyspace db) (hash : Bytes) (ids : List Bytes) (s : Resolving db)
      → All (IsReadableTx rtx) ids
      → (s' : Resolving db) × (for_each (resolve_tx db rtx hash) ids s ≡ ok s')
        × Passed rtx ids s s'
  unfolding for_each
  resolve_txs-Passed rtx hash [] s h = (
    s,
    refl,
    record {
      remaining = sym (append-nil s.remaining_tx_ids);
      processed = sym (or_false s.processed_any);
    },
  )
  resolve_txs-Passed rtx hash (id ∷ ids) s h =
      let (s1, first, one) = resolve_tx-Passed rtx hash id s h.0 in
      let (s2, later, rest) = resolve_txs-Passed rtx hash ids s1 h.1 in
      (
        s2,
        rw first later,
        record {
          remaining =
              rest.remaining
              ∙ ap (λ l. l ++ retain (remains rtx) ids) one.remaining
              ∙ append_assoc s.remaining_tx_ids (retain (remains rtx) (id ∷ []))
                  (retain (remains rtx) ids)
              ∙ ap (λ l. s.remaining_tx_ids ++ l) (one_more rtx id ids);
          processed =
              rest.processed
              ∙ ap (λ b. b || some_gone rtx ids) one.processed
              ∙ or_assoc s.processed_any (some_gone rtx (id ∷ [])) (some_gone rtx ids)
              ∙ ap (λ b. s.processed_any || (b || some_gone rtx ids))
                  (or_false (not (remains rtx id)));
        },
      )

  pub none_gone :
      (rtx : Keyspace db) (ids : List Bytes)
      → some_gone rtx ids ≡ false
      → retain (remains rtx) ids ≡ ids
  none_gone rtx [] h = refl
  none_gone rtx (id ∷ ids) h = elim (Bool-cases (remains rtx id)) [
    | inl e ↦ rw e (ap (◌∷◌ id) (none_gone rtx ids (rw e at h)))
    | inr e ↦ absurd (cc (rw e at h))
  ]
