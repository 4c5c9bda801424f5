-- ===== src/Periodic/SenderResolved.antt =====
-- What the resolver's answer about a sender leaves.
use local_rusty_indexer_poc.Prelude.{
  ◌≡◌, refl, ◌∙◌, ◌&&◌, false, Option, none, some, List, [], ◌∷◌, length, ◌==◌, All, for_each_inv,
  if◌then◌else◌, arith, ok, for_each,
}
use local_rusty_indexer_poc.Bytes.{Bytes}
use local_rusty_indexer_poc.Keys.{AddressPayload, SenderResolutionLikeKey}
use local_rusty_indexer_poc.Store.{Fjall, starts_with}
use local_rusty_indexer_poc.Store.Scan.{mem, keys, is_some, mem-retain, remove_all}
use local_rusty_indexer_poc.Store.Update.{get-fetch_update}
use local_rusty_indexer_poc.Keyspace.{Keyspace, commit}
use local_rusty_indexer_poc.Messages.Address.{TxScript}
use local_rusty_indexer_poc.Processing.{PartitionId}
use local_rusty_indexer_poc.Processing.Acceptance.{resolve_by_raw_keys, raw_keys_by_txid}
use local_rusty_indexer_poc.Processing.Pending.{
  tx_prefix, pending_entry, remove_pending, collect, pending_key_bytes, pending_key_of,
}
use local_rusty_indexer_poc.Processing.PendingScan.{
  IsLegal, IsPending, remove_pending-rest, remove_pending_total,
}
use local_rusty_indexer_poc.Periodic.Attributed.{
  Attributed, Attributed-from, Untouched, resolve_message-Attributed,
}
use local_rusty_indexer_poc.Resolver.{SenderByTxIdAndDaa}
use local_rusty_indexer_poc.Periodic.SenderResolution.{
  Addresses, payload_of_address, found, resolve_pending, resolve_sender, handle_sender_resolution,
}

module _ (db : Fjall) where
  open db use {Tree, get, iter, prefix, fetch_update, prefix_lem, lookup-iter}

  get-resolve_by_raw_keys :
      (t : Tree) (ks : List Bytes) (j : Bytes)
      → get (resolve_by_raw_keys db t ks) j ≡ (if mem j ks then some [] else get t j)
  unfolding resolve_by_raw_keys
  get-resolve_by_raw_keys t [] j = refl
  get-resolve_by_raw_keys t (k ∷ ks) j =
      rw
        (
          get-resolve_by_raw_keys (fetch_update t k (λ _. some [])).1 ks j,
          get-fetch_update db t k (λ _. some []) j,
        )
        (ground arith)

  -- the value under a key once every entry of a transaction is emptied
  abbrev pub emptied : Bytes → Bytes → Option Bytes → Option Bytes
  emptied tx_id j old = if starts_with tx_id j && is_some old then some [] else old

  pub get-resolve_by_raw_keys_all :
      (t : Tree) (tx_id j : Bytes)
      → get (resolve_by_raw_keys db t (raw_keys_by_txid db t tx_id)) j ≡ emptied tx_id j (get t j)
  unfolding raw_keys_by_txid
  get-resolve_by_raw_keys_all t tx_id j =
      rw
        (
          get-resolve_by_raw_keys t (keys (prefix t tx_id)) j,
          prefix_lem t tx_id,
          mem-retain (starts_with tx_id) j (iter t),
          lookup-iter t j,
        )
        refl

  resolve_pending-Untouched :
      (sender : AddressPayload) (start : Keyspace db) (r : PartitionId × SenderResolutionLikeKey)
      (s : Keyspace db)
      → IsLegal r
      → Untouched db start s
      → (s' : Keyspace db) × (resolve_pending db sender r s ≡ ok s') × Untouched db start s'
  resolve_pending-Untouched sender start (p, key) s legal kept =
      let (s', ran, same, _) = resolve_message-Attributed db sender p key s legal in
      (
        s',
        ran,
        record {
          acceptance = same.acceptance ∙ kept.acceptance;
          pending = same.pending ∙ kept.pending;
        },
      )

  -- what an answer leaves of the bookkeeping of its transaction
  pub record Settled (request : SenderByTxIdAndDaa) (before after : Keyspace db) : Type 0 where
    pub pending :
        (j : Bytes)
        → get after.pending_sender_resolution j ≡ (
            if starts_with (tx_prefix request.daa_score request.tx_id) j && length j == 41
            then none
            else get before.pending_sender_resolution j)
    pub acceptance :
        (j : Bytes)
        → get after.tx_id_to_acceptance j
          ≡ emptied request.tx_id j (get before.tx_id_to_acceptance j)

  resolve_sender-Settled :
      (sender : AddressPayload) (request : SenderByTxIdAndDaa) (ks : Keyspace db)
      (rs : List (PartitionId × SenderResolutionLikeKey)) (t' : Tree) (after : Keyspace db)
      → remove_pending db ks.pending_sender_resolution request.daa_score request.tx_id ≡ ok (rs, t')
      → Untouched db
          (record ks {
            tx_id_to_acceptance =
                resolve_by_raw_keys db ks.tx_id_to_acceptance
                  (raw_keys_by_txid db ks.tx_id_to_acceptance request.tx_id);
            pending_sender_resolution = t';
          })
          after
      → Settled request ks after
  resolve_sender-Settled sender request ks rs t' after ran u = record {
    pending = λ j. rw u.pending (
        remove_pending-rest db ks.pending_sender_resolution t' request.daa_score request.tx_id rs
          ran j);
    acceptance =
        λ j. rw u.acceptance (get-resolve_by_raw_keys_all ks.tx_id_to_acceptance request.tx_id j);
  }

  resolve_sender_total :
      (sender : AddressPayload) (request : SenderByTxIdAndDaa) (ks : Keyspace db)
      → All IsPending
          (prefix ks.pending_sender_resolution (tx_prefix request.daa_score request.tx_id))
      → (ks' : Keyspace db) × (resolve_sender db sender request ks ≡ ok ks')
        × Settled request ks ks'
  unfolding resolve_sender
  resolve_sender_total sender request ks h =
      let (rs, t', ran, legal) =
        remove_pending_total db ks.pending_sender_resolution request.daa_score request.tx_id h in
      let start : Keyspace db = record ks {
        tx_id_to_acceptance =
            resolve_by_raw_keys db ks.tx_id_to_acceptance
              (raw_keys_by_txid db ks.tx_id_to_acceptance request.tx_id);
        pending_sender_resolution = t';
      } in
      let (ks', done, u) =
        for_each_inv IsLegal (Untouched db start) (resolve_pending db sender)
          (resolve_pending-Untouched sender start) rs start legal
          (record { acceptance = refl; pending = refl }) in
      (ks', rw ran done, resolve_sender-Settled sender request ks rs t' ks' ran u)

  resolve_sender-Attributed :
      (sender : AddressPayload) (request : SenderByTxIdAndDaa) (ks : Keyspace db) (k v : Bytes)
      (p : PartitionId) (key : SenderResolutionLikeKey)
      → prefix ks.pending_sender_resolution (tx_prefix request.daa_score request.tx_id)
        ≡ (k, v) ∷ []
      → length k ≡ 41
      → pending_entry (k, v) ≡ ok (p, key)
      → IsLegal (p, key)
      → (ks' : Keyspace db) × (resolve_sender db sender request ks ≡ ok ks')
        × Settled request ks ks'
        × Attributed db sender key ks ks'
  unfolding resolve_sender for_each
  resolve_sender-Attributed sender request ks k v p key one sized read legal =
      let t' = db.remove ks.pending_sender_resolution (pending_key_bytes (pending_key_of k)) in
      let ran : remove_pending db ks.pending_sender_resolution request.daa_score request.tx_id
          ≡ ok ((p, key) ∷ [], t') =
        unfold remove_pending collect remove_all in rw (one, sized, read) refl in
      let start : Keyspace db = record ks {
        tx_id_to_acceptance =
            resolve_by_raw_keys db ks.tx_id_to_acceptance
              (raw_keys_by_txid db ks.tx_id_to_acceptance request.tx_id);
        pending_sender_resolution = t';
      } in
      let (ks', done, u, attributed) = resolve_message-Attributed db sender p key start legal in
      (
        ks',
        rw (ran, done) refl,
        resolve_sender-Settled sender request ks ((p, key) ∷ []) t' ks' ran u,
        Attributed-from db sender key start ks ks' refl attributed,
      )

module _ (db : Fjall) (a : Addresses) (tx : TxScript) where
  open db use {Tree, get, prefix}

  -- When the address has a payload, the commit meets no conflict, and exactly one well-formed entry
  -- is pending for the transaction at the score, the answer succeeds and attributes the message:
  -- a handshake or payment stands under its sender and its receiver names the sender, and a
  -- contextual message that was stored without a sender stands under its sender. Of the bookkeeping,
  -- exactly the transaction's pending entries at that score are gone, and each of its
  -- acceptance entries is empty.
  pub handle_sender_resolution-Attributed :
      (address : a.Address) (sender : AddressPayload) (request : SenderByTxIdAndDaa)
      (ks : Keyspace db) (k v : Bytes) (p : PartitionId) (key : SenderResolutionLikeKey)
      → payload_of_address a tx address ≡ ok sender
      → prefix ks.pending_sender_resolution (tx_prefix request.daa_score request.tx_id)
        ≡ (k, v) ∷ []
      → length k ≡ 41
      → pending_entry (k, v) ≡ ok (p, key)
      → IsLegal (p, key)
      → (ks' : Keyspace db) × (handle_sender_resolution db a tx false (found address request) ks
          ≡ ok ks')
        × Settled db request ks ks'
        × Attributed db sender key ks ks'
  unfolding handle_sender_resolution commit
  handle_sender_resolution-Attributed address sender request ks k v p key payload one sized read
        legal =
      let (ks', done, settled, attributed) =
        resolve_sender-Attributed db sender request ks k v p key one sized read legal in
      (ks', rw (payload, done) refl, settled, attributed)

  -- When the address has a payload, the commit meets no conflict and every pending entry of the
  -- transaction at the score is well formed, the answer succeeds, whatever their number: exactly
  -- those entries are gone, and each acceptance entry of the transaction is empty.
  pub handle_sender_resolution-Settled :
      (address : a.Address) (sender : AddressPayload) (request : SenderByTxIdAndDaa)
      (ks : Keyspace db)
      → payload_of_address a tx address ≡ ok sender
      → All IsPending
          (prefix ks.pending_sender_resolution (tx_prefix request.daa_score request.tx_id))
      → (ks' : Keyspace db) × (handle_sender_resolution db a tx false (found address request) ks
          ≡ ok ks')
        × Settled db request ks ks'
  unfolding handle_sender_resolution commit
  handle_sender_resolution-Settled address sender request ks payload h =
      let (ks', done, settled) = resolve_sender_total db sender request ks h in
      (ks', rw (payload, done) refl, settled)

  -- the message partitions are as they were
  abbrev pub SameMessages : Keyspace db → Keyspace db → Type 0
  SameMessages before after =
      (after.handshake_by_sender ≡ before.handshake_by_sender)
      × (after.handshake_by_receiver ≡ before.handshake_by_receiver)
      × (after.contextual_message_by_sender ≡ before.contextual_message_by_sender)
      × (after.payment_by_sender ≡ before.payment_by_sender)
      × (after.payment_by_receiver ≡ before.payment_by_receiver)

  -- An answer that comes when nothing is pending for the transaction at its score (a reorganisation
  -- has removed it) attributes nothing, and yet empties every acceptance entry of the transaction,
  -- the data that a later acceptance of the transaction would need.
  pub handle_sender_resolution_late :
      (address : a.Address) (sender : AddressPayload) (request : SenderByTxIdAndDaa)
      (ks : Keyspace db)
      → payload_of_address a tx address ≡ ok sender
      → prefix ks.pending_sender_resolution (tx_prefix request.daa_score request.tx_id) ≡ []
      → (ks' : Keyspace db) × (handle_sender_resolution db a tx false (found address request) ks
          ≡ ok ks')
        × SameMessages ks ks'
        × ((j : Bytes)
            → get ks'.tx_id_to_acceptance j
              ≡ emptied db request.tx_id j (get ks.tx_id_to_acceptance j))
  unfolding handle_sender_resolution resolve_sender remove_pending collect for_each commit
  handle_sender_resolution_late address sender request ks payload none_pending =
      rw (payload, none_pending)
        (
          _,
          refl,
          (refl, refl, refl, refl, refl),
          get-resolve_by_raw_keys_all db ks.tx_id_to_acceptance request.tx_id,
        )
