-- ===== src/Processing/PendingScan.antt =====
-- What `remove_pending` takes and leaves.
use local_rusty_indexer_poc.Prelude.{
  ℕ, ◌≡◌, refl, ap, ◌&&◌, none, List, [], ◌∷◌, map, retain, All, length, ◌==◌, if◌then◌else◌, arith,
  ==_iff, Bool-cases, inl, inr, ok, >>=-eq-ok, ok-injective, ◌⊎◌,
}
use local_rusty_indexer_poc.Bytes.{Bytes, ◌=ᵇ◌, =ᵇ_iff}
use local_rusty_indexer_poc.Keys.{
  SenderResolutionLikeKey, handshake_key, contextual_message_key, payment_key,
}
use local_rusty_indexer_poc.Keys.Layout.{byte_at, byte_at-slice, join-slices_all}
use local_rusty_indexer_poc.Store.{Fjall, Entry, starts_with}
use local_rusty_indexer_poc.Store.Scan.{mem, keys, mem-retain, remove_all, get-remove_all}
use local_rusty_indexer_poc.Processing.{
  PartitionId, message_partition, handshake_by_sender, contextual_message_by_sender,
  payment_by_sender,
}
use local_rusty_indexer_poc.Processing.Pending.{
  pending_key_bytes, pending_key_of, PendingResolutionKey, pending_entry, collect, remove_pending,
  tx_prefix, like_key_of,
}

-- a key's struct, written again, is the key
pending_key_bytes-pending_key_of :
    (b : Bytes) → length b ≡ 41 → pending_key_bytes (pending_key_of b) ≡ b
unfolding pending_key_bytes
pending_key_bytes-pending_key_of b h =
    rw (byte_at-slice 40 b (omega arith)) at (join-slices_all (8 ∷ 32 ∷ 1 ∷ []) b (omega arith))

-- the keys of the right length that a scan found
abbrev pub sized_keys : List Entry → List Bytes
sized_keys l = keys (retain (λ (e : Entry). length e.0 == 41) l)

pub mem-sized_keys :
    (j : Bytes) (l : List Entry) → mem j (sized_keys l) ≡ (length j == 41 && mem j (keys l))
mem-sized_keys j [] = ground arith
mem-sized_keys j ((k, v) ∷ l) = elim (Bool-cases (k =ᵇ j)) [
  | inl e ↦ rw ((=ᵇ_iff k j).0 e) (ground (arith, mem-sized_keys j l, (=ᵇ_iff j j).1 refl))
  | inr e ↦ elim (Bool-cases (length k == 41)) [
    | inl fits ↦ rw (fits, e) (mem-sized_keys j l)
    | inr other ↦ rw (other, e) (mem-sized_keys j l)
  ]
]

-- the entries whose value can be read back by its partition
abbrev pub IsPending : Entry → Type 0
IsPending e =
    (length e.0 ≡ 41)
    × (((byte_at 40 e.0 ≡ 0) × (length e.1 ≡ 108))
        ⊎ ((byte_at 40 e.0 ≡ 13) × (length e.1 ≡ 90))
        ⊎ ((byte_at 40 e.0 ≡ 14) × (length e.1 ≡ 108)))

-- the view of a struct of the right length
abbrev pub IsLegal : PartitionId × SenderResolutionLikeKey → Type 0
IsLegal (p, handshake_key b) = length b ≡ 108
IsLegal (p, contextual_message_key b) = length b ≡ 90
IsLegal (p, payment_key b) = length b ≡ 108

pending_entry-IsLegal :
    (e : Entry)
    → IsPending e
    → (r : PartitionId × SenderResolutionLikeKey) × (pending_entry e ≡ ok r) × IsLegal r
unfolding pending_entry message_partition like_key_of
pending_entry-IsLegal (k, v) (h, inl (p, l)) =
    ((handshake_by_sender, handshake_key v), rw (p, l) refl, l)
pending_entry-IsLegal (k, v) (h, inr (inl (p, l))) =
    ((contextual_message_by_sender, contextual_message_key v), rw p refl, l)
pending_entry-IsLegal (k, v) (h, inr (inr (p, l))) =
    ((payment_by_sender, payment_key v), rw p refl, l)

-- Collecting well-formed entries succeeds, with a legal view for each.
collect_total :
    (l : List Entry)
    → All IsPending l
    → (ks : List PendingResolutionKey) × (rs : List (PartitionId × SenderResolutionLikeKey))
      × (collect l ≡ ok (ks, rs))
      × All IsLegal rs
unfolding collect
collect_total [] h = ([], [], refl, tt)
collect_total ((k, v) ∷ l) h =
    let (r, read, legal) = pending_entry-IsLegal (k, v) h.0 in
    let (ks, rs, rest, all) = collect_total l h.1 in
    (pending_key_of k ∷ ks, r ∷ rs, rw (h.0.0, read, rest) refl, (legal, all))

-- the collected keys are those of the right length
collect-keys :
    (l : List Entry) (ks : List PendingResolutionKey)
    (rs : List (PartitionId × SenderResolutionLikeKey))
    → collect l ≡ ok (ks, rs)
    → map pending_key_bytes ks ≡ sized_keys l
unfolding collect
collect-keys [] ks rs h = cc
collect-keys ((k, v) ∷ l) ks rs h = elim (Bool-cases (length k == 41)) [
  | inr other ↦ rw other (collect-keys l ks rs (rw other at h))
  | inl fits ↦
      let (r, _, ran) = >>=-eq-ok (pending_entry (k, v)) _ (rw fits at h) in
      let ((ks', rs'), rest, last) = >>=-eq-ok (collect l) _ ran in
      let same : pending_key_of k ∷ ks' ≡ ks = cc last in
      rw (fits, ← same, pending_key_bytes-pending_key_of k ((==_iff _ _).0 fits))
        (ap (◌∷◌ k) (collect-keys l ks' rs' rest))
]

module _ (db : Fjall) where
  open db use {Tree, get, iter, prefix, prefix_lem, lookup-iter}

  -- what `remove_pending` leaves
  pub remove_pending-rest :
      (t t' : Tree) (daa : ℕ) (tx_id : Bytes) (rs : List (PartitionId × SenderResolutionLikeKey))
      → remove_pending db t daa tx_id ≡ ok (rs, t')
      → (j : Bytes)
      → get t' j ≡ (if starts_with (tx_prefix daa tx_id) j && length j == 41 then none else get t j)
  unfolding remove_pending
  remove_pending-rest t t' daa tx_id rs h j =
      let p = tx_prefix daa tx_id in
      let ((ks, rs'), ran, last) = >>=-eq-ok (collect (prefix t p)) _ h in
      let tree : remove_all db t (map pending_key_bytes ks) ≡ t' =
        ap (λ (r : List (PartitionId × SenderResolutionLikeKey) × Tree). r.1) (ok-injective last) in
      rw
        (
          ← tree,
          collect-keys (prefix t p) ks rs' ran,
          get-remove_all db t (sized_keys (prefix t p)) j,
          mem-sized_keys j (prefix t p),
          prefix_lem t p,
          mem-retain (starts_with p) j (iter t),
          lookup-iter t j,
        )
        (ground arith)

  -- On well-formed entries it succeeds, with a legal view for each.
  pub remove_pending_total :
      (t : Tree) (daa : ℕ) (tx_id : Bytes)
      → All IsPending (prefix t (tx_prefix daa tx_id))
      → (rs : List (PartitionId × SenderResolutionLikeKey)) × (t' : Tree) × (remove_pending db t daa
            tx_id
          ≡ ok (rs, t'))
        × All IsLegal rs
  unfolding remove_pending
  remove_pending_total t daa tx_id h =
      let (ks, rs, ran, legal) = collect_total (prefix t (tx_prefix daa tx_id)) h in
      (rs, remove_all db t (map pending_key_bytes ks), rw ran refl, legal)
