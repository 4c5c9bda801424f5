-- ===== src/BlockProcessor/Effects.antt =====
-- What a transaction's operation leaves in the partitions.
use local_rusty_indexer_poc.Prelude.{
  ℕ, ◌≡◌, refl, ap, ◌∙◌, subst, true, Option, none, some, [], length, ◌==◌, ltb, ◌++◌, ok,
  >>=-eq-ok, ok-injective, checked, Bool-cases, inl, inr, invalid_key_length,
}
use local_rusty_indexer_poc.Bytes.{Bytes}
use local_rusty_indexer_poc.Bytes.Endian.{to_be_bytes}
use local_rusty_indexer_poc.Store.{Fjall}
use local_rusty_indexer_poc.Store.Update.{get-insert_same}
use local_rusty_indexer_poc.Keyspace.{Keyspace}
use local_rusty_indexer_poc.Keys.{
  AddressPayload, default_address, handshake_bytes, contextual_bytes, payment_bytes,
}
use local_rusty_indexer_poc.Messages.Handshakes
use local_rusty_indexer_poc.Messages.Payments
use local_rusty_indexer_poc.Messages.Contextual
use local_rusty_indexer_poc.Messages.Contextual.{pad_alias}
use local_rusty_indexer_poc.Processing.{
  PartitionId, handshake_by_sender, contextual_message_by_sender, payment_by_sender,
}
use local_rusty_indexer_poc.Processing.Acceptance
use local_rusty_indexer_poc.Processing.Acceptance.{acceptance_key_bytes, acceptance_key}
use local_rusty_indexer_poc.Processing.Skip
use local_rusty_indexer_poc.Protocol.{
  SealedOperation, sealed_message_or_sealed_handshake_vnone, contextual_message_v1, payment_v1,
}
use local_rusty_indexer_poc.BlockProcessor.Handlers.{
  Chain, Transaction, Block, handle_operation, handle_handshake, handle_contextual_message,
  handle_payment, first_receiver, first_payment, copy_alias,
}

module _ (db : Fjall) (chain : Chain) where
  open db use {Tree, get}

  -- the acceptance entry of a message that no block has accepted yet
  abbrev waiting_entry : Keyspace db → Bytes → PartitionId → Option Bytes
  waiting_entry wtx tx_id p =
      get wtx.tx_id_to_acceptance (acceptance_key_bytes (acceptance_key tx_id none none p))

  -- what the partitions hold once an operation ran, by the kind of the operation
  abbrev pub Recorded :
      Block
      → Transaction
      → Bytes
      → Option SealedOperation
      → Keyspace db
      → Option Bytes × Keyspace db × ℕ
      → Type 0
  Recorded block tx tx_id none before (skipped, after, counted) =
      (skipped ≡ some tx_id)
      × (Skip.should_skip db after.skip_tx tx_id ≡ true)
      × (counted ≡ 0)
      × (after.tx_id_to_acceptance ≡ before.tx_id_to_acceptance)
  Recorded block tx tx_id (some (sealed_message_or_sealed_handshake_vnone op)) before
        (skipped, after, counted) =
      (skipped ≡ none)
      × (counted ≡ 0)
      × (after.skip_tx ≡ before.skip_tx)
      × (get after.tx_id_to_handshake tx_id ≡ some op.sealed_hex)
      × ((receiver : AddressPayload) × (first_receiver chain tx.outputs ≡ ok receiver)
          × (waiting_entry after tx_id handshake_by_sender
              ≡ some (
                  handshake_bytes (record {
                    block_time = to_be_bytes 8 block.timestamp;
                    block_hash = block.hash;
                    receiver = receiver;
                    version = 0;
                    tx_id = tx_id;
                    attempt_count = 10;
                  }))))
  Recorded block tx tx_id (some (contextual_message_v1 op)) before (skipped, after, counted) =
      (skipped ≡ none)
      × (counted ≡ 1)
      × (after.skip_tx ≡ before.skip_tx)
      × (Contextual.get_message db after.contextual_message_by_sender default_address op.alias
            block.timestamp block.hash 1 tx_id
          ≡ ok (some op.sealed_hex))
      × (waiting_entry after tx_id contextual_message_by_sender
          ≡ some (
              contextual_bytes (record {
                alias = pad_alias op.alias;
                block_time = to_be_bytes 8 block.timestamp;
                block_hash = block.hash;
                version = 1;
                tx_id = tx_id;
                attempt_count = 10;
              })))
  Recorded block tx tx_id (some (payment_v1 op)) before (skipped, after, counted) =
      (skipped ≡ none)
      × (counted ≡ 0)
      × (after.skip_tx ≡ before.skip_tx)
      × ((amount : ℕ) × (receiver : AddressPayload) × (first_payment chain tx.outputs
            ≡ ok (amount, receiver))
          × (get after.tx_id_to_payment tx_id ≡ some (to_be_bytes 8 amount ++ op.sealed_hex))
          × (waiting_entry after tx_id payment_by_sender
              ≡ some (
                  payment_bytes (record {
                    block_time = to_be_bytes 8 block.timestamp;
                    block_hash = block.hash;
                    receiver = receiver;
                    version = 1;
                    tx_id = tx_id;
                    attempt_count = 10;
                  }))))

  -- An operation that ran without an error left its record: a payload that is no operation marks
  -- the transaction to skip; each kind of message stores its sealed text under its key, an
  -- acceptance entry without an accepting block that holds the message's key with 10 attempts, and
  -- does not mark the transaction; only a contextual message is counted.
  pub handle_operation-Recorded :
      (block : Block) (tx : Transaction) (tx_id : Bytes) (op : Option SealedOperation)
      (wtx : Keyspace db) (result : Option Bytes × Keyspace db × ℕ)
      → handle_operation db chain block tx tx_id op wtx ≡ ok result
      → Recorded block tx tx_id op wtx result
  unfolding handle_operation Skip.should_skip Skip.mark_skip handle_handshake
      handle_contextual_message handle_payment Contextual.get_message Contextual.insert_message
      Acceptance.insert_handshake_wtx Acceptance.insert_contextual_message_wtx
      Acceptance.insert_payment_wtx Payments.insert_tx_id Handshakes.insert_tx_id copy_alias
  handle_operation-Recorded block tx tx_id none wtx result h =
      subst (Recorded block tx tx_id none wtx) (ok-injective h)
        (refl, rw (get-insert_same db wtx.skip_tx tx_id []) refl, refl, refl)
  handle_operation-Recorded block tx tx_id (some (sealed_message_or_sealed_handshake_vnone op)) wtx
        result h =
      let (after, ran, last) = >>=-eq-ok (handle_handshake db chain block tx tx_id op wtx) _ h in
      let (receiver, found, done) = >>=-eq-ok (first_receiver chain tx.outputs) _ ran in
      subst (Recorded block tx tx_id (some (sealed_message_or_sealed_handshake_vnone op)) wtx)
        (ap (λ w. (none, w, 0)) (ok-injective done) ∙ ok-injective last)
        (refl, refl, refl, get-insert_same db _ _ _, (receiver, found, get-insert_same db _ _ _))
  handle_operation-Recorded block tx tx_id (some (contextual_message_v1 op)) wtx result h =
      elim (Bool-cases (ltb 16 (length op.alias))) [
        | inl long ↦ absurd (cc (rw long at h))
        | inr short ↦
            subst (Recorded block tx tx_id (some (contextual_message_v1 op)) wtx)
              (ok-injective (rw short at h))
              (
                refl,
                refl,
                refl,
                rw short (ap ok (get-insert_same db _ _ _)),
                get-insert_same db _ _ _,
              )
      ]
  handle_operation-Recorded block tx tx_id (some (payment_v1 op)) wtx result h =
      let (after, ran, last) = >>=-eq-ok (handle_payment db chain block tx tx_id op wtx) _ h in
      let ((amount, receiver), found, rest) = >>=-eq-ok (first_payment chain tx.outputs) _ ran in
      let (messages, stored, done) =
        >>=-eq-ok (Payments.insert_tx_id db wtx.tx_id_to_payment tx_id amount op.sealed_hex) _
          rest in
      let (_, same) =
        checked (length tx_id == 32) invalid_key_length
          (db.insert wtx.tx_id_to_payment tx_id (to_be_bytes 8 amount ++ op.sealed_hex)) messages
          stored in
      subst (Recorded block tx tx_id (some (payment_v1 op)) wtx)
        (ap (λ w. (none, w, 0)) (ok-injective done) ∙ ok-injective last)
        (
          refl,
          refl,
          refl,
          (
            amount,
            receiver,
            found,
            subst (λ t. get t tx_id ≡ some (to_be_bytes 8 amount ++ op.sealed_hex)) same
                (get-insert_same db _ _ _),
            get-insert_same db _ _ _,
          ),
        )
