-- ===== src/Periodic/Attributed.antt =====
-- Where a message stands once its sender is resolved.
use local_rusty_indexer_poc.Prelude.{
  ◌≡◌, refl, ◌∙◌, false, Option, none, some, [], length, length-take, ltb, arith, Result, ok,
}
use local_rusty_indexer_poc.Bytes.{Bytes}
use local_rusty_indexer_poc.Keys.{
  AddressPayload, default_address, address_bytes, SenderResolutionLikeKey, handshake_key,
  contextual_message_key, payment_key, handshake_from_bytes, contextual_from_bytes,
  payment_from_bytes, handshake_of, contextual_of, payment_of,
}
use local_rusty_indexer_poc.Store.{Fjall}
use local_rusty_indexer_poc.Store.Update.{get-insert_same}
use local_rusty_indexer_poc.Keyspace.{Keyspace}
use local_rusty_indexer_poc.Messages.Handshakes
use local_rusty_indexer_poc.Messages.Payments
use local_rusty_indexer_poc.Messages.Contextual
use local_rusty_indexer_poc.Messages.Contextual.{contextual_key}
use local_rusty_indexer_poc.Processing.{PartitionId}
use local_rusty_indexer_poc.Processing.PendingScan.{IsLegal}
use local_rusty_indexer_poc.Periodic.SenderResolution.{resolve_message}

module _ (db : Fjall) where
  open db use {Tree, get}

  -- the message's keys under a sender
  abbrev sent_by : AddressPayload → Bytes → Bytes
  sent_by sender b =
      let cmk = contextual_of b in
      Contextual.by_sender_bytes
        (contextual_key sender cmk.alias cmk.block_time cmk.block_hash cmk.version cmk.tx_id)

  -- Where a resolved message stands: a handshake or a payment under its sender, and under its
  -- receiver with the sender as the value; a contextual message that was stored without a sender
  -- now under its sender.
  abbrev pub Attributed :
      AddressPayload → SenderResolutionLikeKey → Keyspace db → Keyspace db → Type 0
  Attributed sender (handshake_key b) before after =
      let hk = handshake_of b in
      (get after.handshake_by_sender (
          Handshakes.by_sender_bytes (record {
            sender = sender;
            block_time = hk.block_time;
            block_hash = hk.block_hash;
            receiver = hk.receiver;
            version = hk.version;
            tx_id = hk.tx_id;
          }))
        ≡ some [])
      × (get after.handshake_by_receiver (
            Handshakes.by_receiver_bytes (record {
              receiver = hk.receiver;
              block_time = hk.block_time;
              block_hash = hk.block_hash;
              version = hk.version;
              tx_id = hk.tx_id;
            }))
          ≡ some (address_bytes sender))
  Attributed sender (contextual_message_key b) before after =
      (sealed_hex : Bytes)
      → get before.contextual_message_by_sender (sent_by default_address b) ≡ some sealed_hex
      → get after.contextual_message_by_sender (sent_by sender b) ≡ some sealed_hex
  Attributed sender (payment_key b) before after =
      let pmk = payment_of b in
      (get after.payment_by_sender (
          Payments.by_sender_bytes (record {
            sender = sender;
            block_time = pmk.block_time;
            block_hash = pmk.block_hash;
            receiver = pmk.receiver;
            version = pmk.version;
            tx_id = pmk.tx_id;
          }))
        ≡ some [])
      × (get after.payment_by_receiver (
            Payments.by_receiver_bytes (record {
              receiver = pmk.receiver;
              block_time = pmk.block_time;
              block_hash = pmk.block_hash;
              version = pmk.version;
              tx_id = pmk.tx_id;
            }))
          ≡ some (address_bytes sender))

  -- what the message partitions are not
  pub record Untouched (before after : Keyspace db) : Type 0 where
    pub acceptance : after.tx_id_to_acceptance ≡ before.tx_id_to_acceptance
    pub pending : after.pending_sender_resolution ≡ before.pending_sender_resolution

  moved :
      (t : Tree) (sender : AddressPayload) (b : Bytes) (old : Option Bytes)
      → get t (sent_by default_address b) ≡ old
      → (t' : Tree) × ((elim old as (λ _. Result Tree) [
        | none ↦ ok t
        | some sealed_hex ↦
            ok (db.insert (db.remove t (sent_by default_address b)) (sent_by sender b) sealed_hex)
      ])
          ≡ ok t')
        × ((sealed_hex : Bytes)
            → old ≡ some sealed_hex
            → get t' (sent_by sender b) ≡ some sealed_hex)
  moved t sender b none h = (t, refl, λ sealed_hex e. cc)
  moved t sender b (some stored) h = (
    db.insert (db.remove t (sent_by default_address b)) (sent_by sender b) stored,
    refl,
    λ sealed_hex e. get-insert_same db _ _ _ ∙ e,
  )

  pub resolve_message-Attributed :
      (sender : AddressPayload) (p : PartitionId) (key : SenderResolutionLikeKey)
      (wtx : Keyspace db)
      → IsLegal (p, key)
      → (wtx' : Keyspace db) × (resolve_message db sender key wtx ≡ ok wtx')
        × Untouched wtx wtx'
        × Attributed sender key wtx wtx'
  unfolding resolve_message handshake_from_bytes contextual_from_bytes payment_from_bytes
      Handshakes.insert_by_sender Handshakes.insert_by_receiver Payments.insert_by_sender
      Payments.insert_by_receiver Contextual.update_sender
  resolve_message-Attributed sender p (handshake_key b) wtx h = rw h (
    _,
    refl,
    record { acceptance = refl; pending = refl },
    (get-insert_same db _ _ _, get-insert_same db _ _ _),
  )
  resolve_message-Attributed sender p (payment_key b) wtx h = rw h (
    _,
    refl,
    record { acceptance = refl; pending = refl },
    (get-insert_same db _ _ _, get-insert_same db _ _ _),
  )
  resolve_message-Attributed sender p (contextual_message_key b) wtx h =
      let t = wtx.contextual_message_by_sender in
      let fits : ltb 16 (length (contextual_of b).alias) ≡ false =
        ground (arith, length-take 16 b) in
      let (t', ran, attributed) = moved t sender b (get t (sent_by default_address b)) refl in
      rw (h, fits, ran) (_, refl, record { acceptance = refl; pending = refl }, attributed)

  -- of the keyspace before, only the contextual messages matter
  pub Attributed-from :
      (sender : AddressPayload) (key : SenderResolutionLikeKey) (before before' after : Keyspace db)
      → before'.contextual_message_by_sender ≡ before.contextual_message_by_sender
      → Attributed sender key before after
      → Attributed sender key before' after
  Attributed-from sender (handshake_key b) before before' after same h = h
  Attributed-from sender (contextual_message_key b) before before' after same h =
      λ sealed_hex stored. h sealed_hex (rw same at stored)
  Attributed-from sender (payment_key b) before before' after same h = h
