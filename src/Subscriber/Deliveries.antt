-- ===== src/Subscriber/Deliveries.antt =====
-- What notifications and a disconnection leave of the cursor, the gaps and the syncers.
use local_rusty_indexer_poc.Prelude.{
  ℕ, ◌≡◌, refl, ap, ◌∙◌, Bool, true, false, Option, none, some, List, [], ◌∷◌, ◌++◌, map, Result,
  ok, err,
}
use local_rusty_indexer_poc.Metadata.{Cursor}
use local_rusty_indexer_poc.Store.{Fjall}
use local_rusty_indexer_poc.Subscriber.{
  Notification, block_added, virtual_chain_changed, virtual_daa_score_changed, other, Disconnection,
  Event, notification, Subscriber, send_intake, Intake, disconnect, and_then,
  unregister_notification_listener, handle_disconnect, handle_notification, handle_event, task,
}

-- a notification, with whether its channel takes it
abbrev pub Delivery : Type 0
Delivery = Notification × Bool

abbrev pub event : Delivery → Event
event (n, is_open) = notification n is_open

-- the cursor of the last block that the block handler took
abbrev pub last_delivered : Option Cursor → List Delivery → Option Cursor
last_delivered c [] = c
last_delivered c ((block_added b, true) ∷ ds) = last_delivered (some b.header) ds
last_delivered c ((block_added b, false) ∷ ds) = last_delivered c ds
last_delivered c ((virtual_chain_changed vcc, _) ∷ ds) = last_delivered c ds
last_delivered c ((virtual_daa_score_changed n, _) ∷ ds) = last_delivered c ds
last_delivered c ((other, _) ∷ ds) = last_delivered c ds

module _ (db : Fjall) where
  -- the fields that the rest is about
  pub record Same (cursor : Option Cursor) (s s' : Subscriber db) : Type 0 where
    pub first : s'.had_first_connect ≡ s.had_first_connect
    pub cursors : s'.last_block_cursor ≡ cursor
    pub gaps : s'.block_gaps ≡ s.block_gaps
    pub syncers : s'.historical_data_syncer_shutdown_tx ≡ s.historical_data_syncer_shutdown_tx

  pub Same-trans :
      {c c' : Option Cursor} {s s1 s2 : Subscriber db} → Same c s s1 → Same c' s1 s2 → Same c' s s2
  Same-trans a b = record {
    first = b.first ∙ a.first;
    cursors = b.cursors;
    gaps = b.gaps ∙ a.gaps;
    syncers = b.syncers ∙ a.syncers;
  }

  send_intake-Same :
      (is_open : Bool) (i : Intake) (s : Subscriber db)
      → Same s.last_block_cursor s (send_intake db is_open i s).0
  unfolding send_intake
  send_intake-Same true i s = record { first = refl; cursors = refl; gaps = refl; syncers = refl }
  send_intake-Same false i s = record { first = refl; cursors = refl; gaps = refl; syncers = refl }

  handle_notification-Same :
      (d : Delivery) (s : Subscriber db)
      → Same (last_delivered s.last_block_cursor (d ∷ [])) s (handle_notification db d.0 d.1 s).0
  unfolding handle_notification
  handle_notification-Same (block_added b, true) s = record {
    first = refl;
    cursors = refl;
    gaps = refl;
    syncers = refl;
  }
  handle_notification-Same (block_added b, false) s = record {
    first = refl;
    cursors = refl;
    gaps = refl;
    syncers = refl;
  }
  handle_notification-Same (virtual_chain_changed vcc, is_open) s = send_intake-Same is_open _ s
  handle_notification-Same (virtual_daa_score_changed n, _) s = record {
    first = refl;
    cursors = refl;
    gaps = refl;
    syncers = refl;
  }
  handle_notification-Same (other, _) s = record {
    first = refl;
    cursors = refl;
    gaps = refl;
    syncers = refl;
  }

  last_delivered-cons :
      (c : Option Cursor) (d : Delivery) (ds : List Delivery)
      → last_delivered (last_delivered c (d ∷ [])) ds ≡ last_delivered c (d ∷ ds)
  last_delivered-cons c (block_added b, true) ds = refl
  last_delivered-cons c (block_added b, false) ds = refl
  last_delivered-cons c (virtual_chain_changed vcc, _) ds = refl
  last_delivered-cons c (virtual_daa_score_changed n, _) ds = refl
  last_delivered-cons c (other, _) ds = refl

  pub task-Same :
      (ds : List Delivery) (rest : List Event) (s : Subscriber db)
      → (s' : Subscriber db) × (task db (map event ds ++ rest) s ≡ task db rest s')
        × Same (last_delivered s.last_block_cursor ds) s s'
  unfolding task handle_event
  task-Same [] rest s =
      (s, refl, record { first = refl; cursors = refl; gaps = refl; syncers = refl })
  task-Same (d ∷ ds) rest s =
      let one = handle_notification-Same d s in
      let (s', ran, same) = task-Same ds rest (handle_notification db d.0 d.1 s).0 in
      let all = Same-trans one same in
      (
        s',
        ran,
        record {
          first = all.first;
          cursors =
              all.cursors
              ∙ ap (λ c. last_delivered c ds) one.cursors
              ∙ last_delivered-cons s.last_block_cursor d ds;
          gaps = all.gaps;
          syncers = all.syncers;
        },
      )

  pub handle_disconnect-Same :
      (d : Disconnection) (s : Subscriber db)
      → Same s.last_block_cursor s (handle_disconnect db d s).0
  unfolding handle_disconnect unregister_notification_listener
  handle_disconnect-Same d s = at_listener s.listener_id d.unregisters
    where
      at_listener :
          (l : Option ℕ) (unregisters : Result (Unit {0}))
          → Same s.last_block_cursor s
              (and_then
                (elim l as (λ _. Subscriber db × Result (Unit {0})) [
                  | none ↦ (s, ok tt)
                  | some _ ↦ (record s { listener_id = none }, unregisters)
                ])
                (λ _ s'. send_intake db d.is_open disconnect s')).0
      at_listener none u = send_intake-Same d.is_open disconnect s
      at_listener (some l) (ok u) =
          let same = send_intake-Same d.is_open disconnect (record s { listener_id = none }) in
          record {
            first = same.first;
            cursors = same.cursors;
            gaps = same.gaps;
            syncers = same.syncers;
          }
      at_listener (some l) (err e) = record {
        first = refl;
        cursors = refl;
        gaps = refl;
        syncers = refl;
      }
