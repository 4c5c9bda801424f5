-- ===== src/Periodic/UnknownEntries.antt =====
-- What the entries of an unknown transaction do to the variables of its loop.
use local_rusty_indexer_poc.Prelude.{
  ◌≡◌, refl, sym, ap, ◌∙◌, Bool, true, false, ◌||◌, List, [], ◌∷◌, All, length, Result, ok, err,
  for_each_ok,
}
use local_rusty_indexer_poc.Bytes.{Bytes}
use local_rusty_indexer_poc.Keys.{handshake_from_bytes, contextual_from_bytes, payment_from_bytes}
use local_rusty_indexer_poc.Keys.Layout.{byte_at}
use local_rusty_indexer_poc.Store.{Fjall}
use local_rusty_indexer_poc.Processing.Acceptance.{
  AcceptingBlockResolutionData, handshake_key, contextual_message_key, payment_key, no_data,
}
use local_rusty_indexer_poc.Periodic.UnknownTxs.{Resolving, take_entry, resolve_entry}

-- an entry that can be read: its data has the length and the partition of its kind
abbrev pub IsReadable : Result (Bytes × AcceptingBlockResolutionData) → Type 0
IsReadable (err e) = ⊥
IsReadable (ok (key, handshake_key b)) = (byte_at 72 key ≡ 0) × (length b ≡ 108)
IsReadable (ok (key, contextual_message_key b)) = (byte_at 72 key ≡ 13) × (length b ≡ 90)
IsReadable (ok (key, payment_key b)) = (byte_at 72 key ≡ 14) × (length b ≡ 108)
IsReadable (ok (key, no_data)) = Unit {0}

-- whether an entry carries data
abbrev pub is_data : Result (Bytes × AcceptingBlockResolutionData) → Bool
is_data (err e) = false
is_data (ok (key, handshake_key b)) = true
is_data (ok (key, contextual_message_key b)) = true
is_data (ok (key, payment_key b)) = true
is_data (ok (key, no_data)) = false

abbrev pub has_data : List (Result (Bytes × AcceptingBlockResolutionData)) → Bool
has_data [] = false
has_data (r ∷ rs) = is_data r || has_data rs

pub or_assoc : (a b c : Bool) → ((a || b) || c) ≡ (a || (b || c))
or_assoc true b c = refl
or_assoc false b c = refl

pub or_false : (a : Bool) → (a || false) ≡ a
or_false true = refl
or_false false = refl

pub or_true : (a : Bool) → (a || true) ≡ true
or_true true = refl
or_true false = refl

module _ (db : Fjall) where
  open db use {Tree}

  -- what some entries of one transaction do to the variables of the loop
  pub record Found (data? : Bool) (s s' : Resolving db) : Type 0 where
    pub remaining : s'.remaining_tx_ids ≡ s.remaining_tx_ids
    pub processed : s'.processed_any ≡ (s.processed_any || data?)
    pub found : s'.found_resolution ≡ (s.found_resolution || data?)

  take_entry-Found :
      (t : Tree) (entries : Bytes) (s : Resolving db) → Found true s (take_entry db t entries s)
  take_entry-Found t entries s = record {
    remaining = refl;
    processed = sym (or_true s.processed_any);
    found = sym (or_true s.found_resolution);
  }

  resolve_entry-Found :
      (hash tx_id key : Bytes) (resolution : AcceptingBlockResolutionData) (s : Resolving db)
      → IsReadable (ok (key, resolution))
      → (s' : Resolving db) × (resolve_entry db hash tx_id (key, resolution) s ≡ ok s')
        × Found (is_data (ok (key, resolution))) s s'
  unfolding resolve_entry handshake_from_bytes contextual_from_bytes payment_from_bytes
  resolve_entry-Found hash tx_id key (handshake_key b) s (p, l) =
      rw (p, l) (_, refl, take_entry-Found _ _ s)
  resolve_entry-Found hash tx_id key (contextual_message_key b) s (p, l) =
      rw (p, l) (_, refl, take_entry-Found _ _ s)
  resolve_entry-Found hash tx_id key (payment_key b) s (p, l) =
      rw (p, l) (_, refl, take_entry-Found _ _ s)
  resolve_entry-Found hash tx_id key no_data s h = (
    s,
    refl,
    record {
      remaining = refl;
      processed = sym (or_false s.processed_any);
      found = sym (or_false s.found_resolution);
    },
  )

  pub resolve_entries-Found :
      (hash tx_id : Bytes) (rs : List (Result (Bytes × AcceptingBlockResolutionData)))
      (s : Resolving db)
      → All IsReadable rs
      → (s' : Resolving db) × (for_each_ok (resolve_entry db hash tx_id) rs s ≡ ok s')
        × Found (has_data rs) s s'
  unfolding for_each_ok
  resolve_entries-Found hash tx_id [] s h = (
    s,
    refl,
    record {
      remaining = refl;
      processed = sym (or_false s.processed_any);
      found = sym (or_false s.found_resolution);
    },
  )
  resolve_entries-Found hash tx_id (err e ∷ rs) s h = absurd h.0
  resolve_entries-Found hash tx_id (ok (key, resolution) ∷ rs) s h =
      let (s1, first, one) = resolve_entry-Found hash tx_id key resolution s h.0 in
      let (s2, later, rest) = resolve_entries-Found hash tx_id rs s1 h.1 in
      let d = is_data (ok (key, resolution)) in
      (
        s2,
        rw first later,
        record {
          remaining = rest.remaining ∙ one.remaining;
          processed =
              rest.processed
              ∙ ap (λ b. b || has_data rs) one.processed
              ∙ or_assoc s.processed_any d (has_data rs);
          found =
              rest.found
              ∙ ap (λ b. b || has_data rs) one.found
              ∙ or_assoc s.found_resolution d (has_data rs);
        },
      )
