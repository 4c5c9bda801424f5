-- ===== src/Subscriber/Reconnect.antt =====
-- The gap that a new connection opens.
use local_rusty_indexer_poc.Prelude.{
  ◌≡◌, refl, sym, ap, ◌∙◌, Bool, true, false, Option, none, some, List, [], ◌∷◌, ◌++◌, map, ltb,
  if◌then◌else◌, Result, ok,
}
use mathlib.Core.List.{append-nil}
use local_rusty_indexer_poc.Headers.Compact.{CompactHeader}
use local_rusty_indexer_poc.Headers.Gaps.{BlockGap, from_cursors, add_gap, add_gaps_batch}
use local_rusty_indexer_poc.Metadata.{Cursor}
use local_rusty_indexer_poc.Resolver.{idle}
use local_rusty_indexer_poc.SelectedChain.History.{cursor_at}
use local_rusty_indexer_poc.Store.{Fjall}
use local_rusty_indexer_poc.Subscriber.{
  BlockDagInfo, Connection, Disconnection, connect, disconnected, kept_until, Subscriber,
  send_intake, register_notification_listeners, first_connect, open_gap, handle_connect_impl,
  connected, and_then, default_cursor, start_syncers, handle_connect, handle_disconnect,
  handle_event, task,
}
use local_rusty_indexer_poc.Subscriber.Deliveries.{
  Delivery, event, last_delivered, Same-trans, task-Same, handle_disconnect-Same,
}

-- a connection on which every call succeeds
pub record IsConnectable (c : Connection) (info : BlockDagInfo) (sink : CompactHeader)
    : Type 0 where
  pub open_ : c.intake_open ≡ true
  pub blocks : c.notify_blocks ≡ ok tt
  pub daa : c.notify_daa ≡ ok tt
  pub chain : c.notify_chain ≡ ok tt
  pub dag : c.get_block_dag_info ≡ ok info
  pub sink_block : c.get_block info.sink ≡ ok sink

-- the stretch of history to fetch from a last block on, if the node still has it
abbrev pub to_fetch : BlockDagInfo → CompactHeader → Option Cursor → List (Cursor × Cursor)
to_fetch info sink none = []
to_fetch info sink (some last) =
    if ltb info.virtual_daa_score (kept_until last.daa_score)
    then (last, cursor_at info.sink sink) ∷ []
    else []

abbrev pub gap_of : Cursor × Cursor → BlockGap
gap_of (a, b) = from_cursors a b

module _ (db : Fjall) where
  -- the state after the listener is registered
  abbrev registered : Connection → Subscriber db → Subscriber db
  registered c s = record s {
    intakes = s.intakes ++ connected ∷ [];
    listener_id = some c.new_listener;
  }

  first_connect-again :
      (c : Connection) (info : BlockDagInfo) (s : Subscriber db)
      → s.had_first_connect ≡ true
      → first_connect db c info s ≡ (s, ok tt)
  unfolding first_connect
  first_connect-again c info s again =
      ap
        (λ b.
          if b
          then (s, ok tt)
          else and_then (default_cursor db c info s) (λ _ s'. start_syncers db info s'))
        again

  and_then-ok :
      {A B : Type 0} (p : Subscriber db × Result A) (s : Subscriber db) (a : A)
      (next : A → Subscriber db → Subscriber db × Result B)
      → p ≡ (s, ok a)
      → and_then p next ≡ next a s
  and_then-ok p s a next h = ap (λ q. and_then q next) h

  handle_connect-again :
      (c : Connection) (info : BlockDagInfo) (sink : CompactHeader) (s : Subscriber db)
      → IsConnectable c info sink
      → s.had_first_connect ≡ true
      → (handle_connect db c s).0 ≡ open_gap db info sink (registered c s)
  unfolding handle_connect handle_connect_impl send_intake register_notification_listeners
  handle_connect-again c info sink s h again =
      let s1 : Subscriber db = record s { intakes = s.intakes ++ connected ∷ [] } in
      let s2 = registered c s in
      ap (λ (p : Subscriber db × Result (Unit {0})). p.0)
        (and_then-ok _ s1 tt _ (ap (λ b. send_intake db b connected s) h.open_)
          ∙ and_then-ok (register_notification_listeners db c s1) s2 tt _
              (rw (h.blocks, h.daa, h.chain) refl)
          ∙ and_then-ok _ s2 info _ (ap (λ r. (s2, r)) h.dag)
          ∙ and_then-ok _ s2 sink _ (ap (λ r. (s2, r)) h.sink_block)
          ∙ and_then-ok _ s2 tt _ (first_connect-again c info s2 again))

  -- some stretches to fetch, added to what there was
  record Opened (stretches : List (Cursor × Cursor)) (s s' : Subscriber db) : Type 0 where
    cursors : s'.last_block_cursor ≡ none
    gaps : s'.block_gaps ≡ add_gaps_batch db s.block_gaps (map gap_of stretches)
    syncers :
        s'.historical_data_syncer_shutdown_tx ≡ s.historical_data_syncer_shutdown_tx ++ stretches

  -- what the connection does with a cursor, if the gap is recent or not
  abbrev open_if : BlockDagInfo → CompactHeader → Cursor → Bool → Subscriber db → Subscriber db
  open_if info sink last is_recent s =
      if is_recent
      then record s {
        last_block_cursor = none;
        block_gaps = add_gap db s.block_gaps (gap_of (last, cursor_at info.sink sink));
        historical_data_syncer_shutdown_tx =
            s.historical_data_syncer_shutdown_tx ++ (last, cursor_at info.sink sink) ∷ [];
      }
      else record s { last_block_cursor = none }

  open_if-Opened :
      (info : BlockDagInfo) (sink : CompactHeader) (last : Cursor) (b : Bool) (s : Subscriber db)
      → Opened
          (if b then (last, cursor_at info.sink sink) ∷ [] else [])
          s
          (open_if info sink last b s)
  unfolding add_gaps_batch
  open_if-Opened info sink last true s = record { cursors = refl; gaps = refl; syncers = refl }
  open_if-Opened info sink last false s = record {
    cursors = refl;
    gaps = refl;
    syncers = sym (append-nil s.historical_data_syncer_shutdown_tx);
  }

  open_gap-Opened :
      (info : BlockDagInfo) (sink : CompactHeader) (s : Subscriber db)
      → Opened (to_fetch info sink s.last_block_cursor) s (open_gap db info sink s)
  unfolding open_gap
  open_gap-Opened info sink s = at_cursor s.last_block_cursor refl
    where
      at_cursor :
          (c : Option Cursor)
          → s.last_block_cursor ≡ c
          → Opened (to_fetch info sink c) s (elim c as (λ _. Subscriber db) [
            | none ↦ s
            | some last ↦
                open_if info sink last (ltb info.virtual_daa_score (kept_until last.daa_score)) s
          ])
      at_cursor none h =
          unfold add_gaps_batch in
          record {
            cursors = h;
            gaps = refl;
            syncers = sym (append-nil s.historical_data_syncer_shutdown_tx);
          }
      at_cursor (some last) h =
          open_if-Opened info sink last (ltb info.virtual_daa_score (kept_until last.daa_score)) s

  -- After the first connection, and with any notifications, the loop handles a disconnection and a
  -- new connection on which every call succeeds, and goes on. The connection opens the gap from the
  -- last block that the block handler took, or else the cursor it began with, to the sink, and
  -- starts a historical syncer over it, if the block's score and twice the pruning depth (the sum on
  -- 64 bits) exceed the node's virtual score; without a cursor it opens nothing. In each case no
  -- cursor is left.
  pub reconnect-gap :
      (ds : List Delivery) (d : Disconnection) (c : Connection) (info : BlockDagInfo)
      (sink : CompactHeader) (s : Subscriber db)
      → s.had_first_connect ≡ true
      → IsConnectable c info sink
      → (s' : Subscriber db) × (task db (map event ds ++ disconnected d ∷ connect c ∷ []) s
          ≡ (s', idle))
        × (s'.last_block_cursor ≡ none)
        × (s'.block_gaps
            ≡ add_gaps_batch db s.block_gaps
                (map gap_of (to_fetch info sink (last_delivered s.last_block_cursor ds))))
        × (s'.historical_data_syncer_shutdown_tx
            ≡ s.historical_data_syncer_shutdown_tx
              ++ to_fetch info sink (last_delivered s.last_block_cursor ds))
  reconnect-gap ds d c info sink s first h =
      let (s1, ran, before) = task-Same db ds (disconnected d ∷ connect c ∷ []) s in
      let s2 = (handle_disconnect db d s1).0 in
      let same = Same-trans db before (handle_disconnect-Same db d s1) in
      let opened = open_gap-Opened info sink (registered c s2) in
      let cursor = same.cursors ∙ before.cursors in
      (
        open_gap db info sink (registered c s2),
        ran
            ∙ (unfold task handle_event in
                ap (λ t. (t, idle)) (handle_connect-again c info sink s2 h (same.first ∙ first))),
        opened.cursors,
        opened.gaps
            ∙ rw cursor (
                ap
                  (λ t.
                    add_gaps_batch db t
                      (map gap_of (to_fetch info sink (last_delivered s.last_block_cursor ds))))
                  same.gaps),
        opened.syncers
            ∙ rw cursor (
                ap (λ l. l ++ to_fetch info sink (last_delivered s.last_block_cursor ds))
                  same.syncers),
      )
