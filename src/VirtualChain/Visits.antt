-- ===== src/VirtualChain/Visits.antt =====
-- What the entries of one transaction do to the variables of `handle_accepted_block`'s loops.
use local_rusty_indexer_poc.Prelude.{
  ℕ, ◌≡◌, refl, ◌∙◌, subst, not, ◌==◌, Bool, true, false, Option, none, some, List, [], ◌∷◌,
  is_empty, Result, ok, ◌>>=◌, >>=-eq-ok, for_each_ok, ok-injective, if◌then◌else◌, Bool-cases, inl,
  inr,
}
use local_rusty_indexer_poc.Bytes.{Bytes, ◌=ᵇ◌}
use local_rusty_indexer_poc.Store.{Fjall}
use local_rusty_indexer_poc.Keys.Layout.{slice, byte_at}
use local_rusty_indexer_poc.Keys.{handshake_from_bytes, contextual_from_bytes, payment_from_bytes}
use local_rusty_indexer_poc.Processing.{
  as_u8, handshake_by_sender, contextual_message_by_sender, payment_by_sender,
}
use local_rusty_indexer_poc.Processing.Acceptance.{
  AcceptingBlockResolutionData, handshake_key, contextual_message_key, payment_key, no_data,
}
use local_rusty_indexer_poc.VirtualChain.Accept.{Accepting, assert, accept_data, accept_entry}

module _ (db : Fjall) where
  -- with a known score the collected entries stay
  abbrev pub EntriesKept : Option ℕ → Bytes → Bytes → Type 0
  EntriesKept none before after = Unit {0}
  EntriesKept (some score) before after = after ≡ before

  record Keeps (daa : Option ℕ) (s s' : Accepting db) : Type 0 where
    unknown : s'.unknown_tx_ids ≡ s.unknown_tx_ids
    required : s'.is_required ≡ s.is_required
    entries : EntriesKept daa s.entries s'.entries

  asserted :
      {A : Type 0} (c : Bool) (m : Result A) (f : A → Accepting db) (P : Accepting db → Type 0)
      (s' : Accepting db)
      → ((a : A) → P (f a))
      → (assert c >>= λ _. m >>= λ a. ok (f a)) ≡ ok s'
      → P s'
  asserted c m f P s' p h =
      let (_, _, checked) = >>=-eq-ok (assert c) (λ _. m >>= λ a. ok (f a)) h in
      let (a, _, last) = >>=-eq-ok m (λ a. ok (f a)) checked in subst P (ok-injective last) (p a)

  accept_data-Keeps :
      (hash : Bytes) (daa : Option ℕ) (tx_id key : Bytes)
      (resolution : AcceptingBlockResolutionData) (s s' : Accepting db)
      → accept_data db hash daa tx_id key resolution s ≡ ok s'
      → Keeps daa s s'
  unfolding accept_data
  accept_data-Keeps hash none tx_id key (handshake_key b) s s' h =
      asserted (byte_at 72 key == as_u8 handshake_by_sender) (handshake_from_bytes b) _
        (Keeps none s) s' (λ a. record { unknown = refl; required = refl; entries = tt }) h
  accept_data-Keeps hash (some n) tx_id key (handshake_key b) s s' h =
      asserted (byte_at 72 key == as_u8 handshake_by_sender) (handshake_from_bytes b) _
        (Keeps (some n) s) s' (λ a. record { unknown = refl; required = refl; entries = refl }) h
  accept_data-Keeps hash none tx_id key (contextual_message_key b) s s' h =
      asserted (byte_at 72 key == as_u8 contextual_message_by_sender) (contextual_from_bytes b) _
        (Keeps none s) s' (λ a. record { unknown = refl; required = refl; entries = tt }) h
  accept_data-Keeps hash (some n) tx_id key (contextual_message_key b) s s' h =
      asserted (byte_at 72 key == as_u8 contextual_message_by_sender) (contextual_from_bytes b) _
        (Keeps (some n) s) s' (λ a. record { unknown = refl; required = refl; entries = refl }) h
  accept_data-Keeps hash none tx_id key (payment_key b) s s' h =
      asserted (byte_at 72 key == as_u8 payment_by_sender) (payment_from_bytes b) _ (Keeps none s)
        s' (λ a. record { unknown = refl; required = refl; entries = tt }) h
  accept_data-Keeps hash (some n) tx_id key (payment_key b) s s' h =
      asserted (byte_at 72 key == as_u8 payment_by_sender) (payment_from_bytes b) _
        (Keeps (some n) s) s' (λ a. record { unknown = refl; required = refl; entries = refl }) h
  accept_data-Keeps hash none tx_id key no_data s s' h =
      subst (Keeps none s) (ok-injective h)
        (record { unknown = refl; required = refl; entries = tt })
  accept_data-Keeps hash (some n) tx_id key no_data s s' h =
      subst (Keeps (some n) s) (ok-injective h)
        (record { unknown = refl; required = refl; entries = refl })

  -- after entries: the id is required if it was, or if there was any entry
  pub record Visited (daa : Option ℕ) (found : Bool) (s s' : Accepting db) : Type 0 where
    pub unknown : s'.unknown_tx_ids ≡ s.unknown_tx_ids
    pub required : s'.is_required ≡ (if found then true else s.is_required)
    pub entries : EntriesKept daa s.entries s'.entries

  pub EntriesKept-trans :
      (daa : Option ℕ) (a b c : Bytes)
      → EntriesKept daa a b
      → EntriesKept daa b c
      → EntriesKept daa a c
  EntriesKept-trans none a b c h k = tt
  EntriesKept-trans (some n) a b c h k = k ∙ h

  pub EntriesKept-refl : (daa : Option ℕ) (a : Bytes) → EntriesKept daa a a
  EntriesKept-refl none a = tt
  EntriesKept-refl (some n) a = refl

  accept_entry-Visited :
      (hash : Bytes) (daa : Option ℕ) (tx_id : Bytes) (entry : Bytes × AcceptingBlockResolutionData)
      (s s' : Accepting db)
      → accept_entry db hash daa tx_id entry s ≡ ok s'
      → Visited daa true s s'
  unfolding accept_entry
  accept_entry-Visited hash daa tx_id (key, resolution) s s' h =
      let (_, _, ran) = >>=-eq-ok (assert (tx_id =ᵇ slice 0 32 key)) _ h in
      let k =
        accept_data-Keeps hash daa tx_id key resolution (record s { is_required = true }) s' ran in
      record { unknown = k.unknown; required = k.required; entries = k.entries }

  pub accept_entries-Visited :
      (hash : Bytes) (daa : Option ℕ) (tx_id : Bytes)
      (entries : List (Result (Bytes × AcceptingBlockResolutionData))) (s s' : Accepting db)
      → for_each_ok (accept_entry db hash daa tx_id) entries s ≡ ok s'
      → Visited daa (not (is_empty entries)) s s'
  unfolding for_each_ok
  accept_entries-Visited hash daa tx_id [] s s' h =
      subst (Visited daa false s) (ok-injective h)
        (record { unknown = refl; required = refl; entries = EntriesKept-refl daa s.entries })
  accept_entries-Visited hash daa tx_id (entry ∷ entries) s s' h =
      let (x, _, ran) = >>=-eq-ok entry _ h in
      let (s1, first, later) = >>=-eq-ok (accept_entry db hash daa tx_id x s) _ ran in
      let v = accept_entry-Visited hash daa tx_id x s s1 first in
      let w = accept_entries-Visited hash daa tx_id entries s1 s' later in
      record {
        unknown = w.unknown ∙ v.unknown;
        required =
            w.required
            ∙ rw v.required
                (elim (Bool-cases (is_empty entries)) [ inl e ↦ rw e refl | inr e ↦ rw e refl ]);
        entries = EntriesKept-trans daa s.entries s1.entries s'.entries v.entries w.entries;
      }
