-- ===== src/SelectedChain/Queueing.antt =====
-- What happens to the notifications that arrive while the history is fetched.
use local_rusty_indexer_poc.Prelude.{
  ◌≡◌, refl, sym, ap, ◌∙◌, Bool, true, false, some, List, [], ◌∷◌, ◌++◌, map, last?, Result, ok,
  ltb, length, ◌^◌, ◌%◌, ◌+◌, All, ok-injective, >>=-eq-ok, ◌>>=◌, or_fail, panicked, if◌then◌else◌,
  is_empty, ◌&&◌,
}
use mathlib.Core.List.{append-nil, append_assoc}
use local_rusty_indexer_poc.Metadata.{Cursor}
use local_rusty_indexer_poc.VirtualChain.{
  VirtualChainChangedNotification, VirtualChainChangedNotificationAndBlueWork,
}
use local_rusty_indexer_poc.SelectedChain.{
  SyncState, Answers, TargetReachedVia, target_reached, Event, sync_result, virtual_chain_changed,
  process, handle_event, handle_sync_result, handle_vcc_notification, route, clear_historical_task,
  process_queued_notifications,
}

-- a notification that arrives, with the answers to it
abbrev pub Arrival : Type 0
Arrival = Answers × VirtualChainChangedNotification

-- what it is sent on as
abbrev pub enriched : Arrival → Result VirtualChainChangedNotificationAndBlueWork
enriched (a, vcc) = do
  last_block ← or_fail (last? vcc.added_chain_block_hashes) panicked
  c ← a.header last_block
  ok (record { vcc = vcc; last_block_blue_work = c.blue_work; last_daa_score = c.daa_score })

abbrev pub arrive : Arrival → Event
arrive (a, vcc) = virtual_chain_changed a vcc

not_empty :
    {A : Type 0} (l : List A) (b : A) → or_fail (last? l) panicked ≡ ok b → is_empty l ≡ false
not_empty [] b h = absurd cc
not_empty (x ∷ l) b h = refl

and_false : (b : Bool) → (b && false) ≡ false
and_false true = refl
and_false false = refl

handle_vcc_notification-enriched :
    (x : Arrival) (n : VirtualChainChangedNotificationAndBlueWork) (s : SyncState)
    → enriched x ≡ ok n
    → handle_vcc_notification x.0 x.1 s ≡ route x.0 n s
unfolding handle_vcc_notification
handle_vcc_notification-enriched (a, vcc) n s h =
    let (b, found, rest) = >>=-eq-ok (or_fail (last? vcc.added_chain_block_hashes) panicked) _ h in
    let (c, known, last) = >>=-eq-ok (a.header b) _ rest in
    rw
      (
        handle_vcc_notification,
        not_empty vcc.added_chain_block_hashes b found,
        and_false (is_empty vcc.removed_chain_block_hashes),
        found,
        known,
      )
      (ap (λ m. route a m s) (ok-injective last))

-- arrivals, each with what it is sent on as
abbrev pub Known : List (Arrival × VirtualChainChangedNotificationAndBlueWork) → Type 0
Known xs =
    All (λ (x : Arrival × VirtualChainChangedNotificationAndBlueWork). enriched x.0 ≡ ok x.1) xs

abbrev pub arrivals : List (Arrival × VirtualChainChangedNotificationAndBlueWork) → List Event
arrivals xs = map (λ (x : Arrival × VirtualChainChangedNotificationAndBlueWork). arrive x.0) xs

abbrev pub sent_on :
    List (Arrival × VirtualChainChangedNotificationAndBlueWork)
    → List VirtualChainChangedNotificationAndBlueWork
sent_on xs = map (λ (x : Arrival × VirtualChainChangedNotificationAndBlueWork). x.1) xs

process-append :
    (es fs : List Event) (s t : SyncState)
    → process es s ≡ ok t
    → process (es ++ fs) s ≡ process fs t
unfolding process
process-append [] fs s t h = ap (process fs) (ok-injective h)
process-append (e ∷ es) fs s t h =
    let (s1, first, later) = >>=-eq-ok (handle_event e s) _ h in
    rw first (process-append es fs s1 t later)

record Queued (ns : List VirtualChainChangedNotificationAndBlueWork) (s t : SyncState)
    : Type 0 where
  synced : t.is_synced ≡ false
  queue : t.vcc_queue ≡ s.vcc_queue ++ ns
  forwarded : t.forwarded ≡ s.forwarded

route-Queued :
    (a : Answers) (n : VirtualChainChangedNotificationAndBlueWork) (s : SyncState)
    → s.is_synced ≡ false
    → (t : SyncState) × (route a n s ≡ ok t) × Queued (n ∷ []) s t
unfolding route
route-Queued a n s h = (
  record s {
    vcc_queue = s.vcc_queue ++ n ∷ [];
    queue_pow =
        if ltb ((2 ^ s.queue_pow) % 2 ^ 32) (length (s.vcc_queue ++ n ∷ []))
        then (s.queue_pow + 1) % 2 ^ 32
        else s.queue_pow;
  },
  rw (route, h) refl,
  record { synced = h; queue = refl; forwarded = refl },
)

arrivals-Queued :
    (xs : List (Arrival × VirtualChainChangedNotificationAndBlueWork)) (s : SyncState)
    → Known xs
    → s.is_synced ≡ false
    → (t : SyncState) × (process (arrivals xs) s ≡ ok t) × Queued (sent_on xs) s t
unfolding process handle_event
arrivals-Queued [] s k h =
    (s, refl, record { synced = h; queue = sym (append-nil s.vcc_queue); forwarded = refl })
arrivals-Queued ((x, n) ∷ xs) s k h =
    let (t, ran, q) = route-Queued x.0 n s h in
    let (u, later, p) = arrivals-Queued xs t k.1 q.synced in
    (
      u,
      rw (handle_vcc_notification-enriched x n s k.0 ∙ ran) later,
      record {
        synced = p.synced;
        queue =
            p.queue
            ∙ ap (λ l. l ++ sent_on xs) q.queue
            ∙ append_assoc s.vcc_queue (n ∷ []) (sent_on xs);
        forwarded = p.forwarded ∙ q.forwarded;
      },
    )

-- While the syncer is not synced, notifications that can be read are held back; when the historical
-- sync reports its target, with the worker's channel open, everything that was queued is forwarded
-- in the order of arrival behind what was forwarded before, the queue is empty, and the syncer is
-- synced.
pub queued-forwarded :
    (xs : List (Arrival × VirtualChainChangedNotificationAndBlueWork)) (r : Answers)
    (target : Cursor) (via : TargetReachedVia) (s : SyncState)
    → Known xs
    → s.is_synced ≡ false
    → r.worker_open ≡ true
    → (t : SyncState) × (process
          (arrivals xs ++ sync_result r (some (target_reached target via)) ∷ [])
          s
        ≡ ok t)
      × (t.forwarded ≡ s.forwarded ++ (s.vcc_queue ++ sent_on xs))
      × (t.vcc_queue ≡ [])
      × (t.is_synced ≡ true)
unfolding process handle_event handle_sync_result process_queued_notifications clear_historical_task
queued-forwarded xs r target via s k h open_ =
    let (u, held, q) = arrivals-Queued xs s k h in
    (
      record (clear_historical_task (record u { is_synced = true })) {
        forwarded = u.forwarded ++ u.vcc_queue;
        vcc_queue = [];
      },
      process-append (arrivals xs) (sync_result r (some (target_reached target via)) ∷ []) s u held
          ∙ rw open_ refl,
      rw (q.forwarded, q.queue) refl,
      refl,
      refl,
    )
