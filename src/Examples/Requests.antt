-- ===== src/Examples/Requests.antt =====
-- Examples for what is asked of the resolver, for its answers, and for unknown transactions.
use local_rusty_indexer_poc.Prelude.{
  ℕ, ◌≡◌, refl, true, false, none, some, List, [], ◌∷◌, ◌++◌, ok, arith, retain,
}
use local_rusty_indexer_poc.Bytes.{Bytes, ◌=ᵇ◌, strip_prefix}
use local_rusty_indexer_poc.Bytes.Endian.{to_be_bytes, to_le_bytes, from_le_bytes}
use local_rusty_indexer_poc.FifoSet as Fifo
use local_rusty_indexer_poc.Keys.{payment_bytes}
use local_rusty_indexer_poc.Keys.Layout.{join}
use local_rusty_indexer_poc.Store.{lookup, starts_with}
use local_rusty_indexer_poc.Store.Memory.{memory, put}
use local_rusty_indexer_poc.Keyspace.{Keyspace}
use local_rusty_indexer_poc.Headers.Compact.{insert_compact_header, get_daa_score}
use local_rusty_indexer_poc.Processing.{message_partition}
use local_rusty_indexer_poc.Processing.Acceptance.{
  insert_payment_wtx, acceptance_key_bytes, get_by_tx_id, decode, resolution_of,
}
use local_rusty_indexer_poc.Processing.Pending.{pending_key_bytes, mark_payment_pending}
use local_rusty_indexer_poc.Resolver.{
  SenderByTxIdAndDaa, Requests, Round, Resolver, new_resolver, answered, block_found,
  handle_block_request, one_less,
}
use local_rusty_indexer_poc.Resolver.Cached.{handle_block_request_once}
use local_rusty_indexer_poc.Periodic.Asking.{Channel, ask_block, unknown_sender}
use local_rusty_indexer_poc.Periodic.Asked.{Counted, unknown_sender-Counted, ask_block-marks}
use local_rusty_indexer_poc.Periodic.DaaResolved.{pending_after}
use local_rusty_indexer_poc.Periodic.UnknownTxs.{resolve_unknown_block}
use local_rusty_indexer_poc.Periodic.UnknownPassed.{remains}
use local_rusty_indexer_poc.Periodic.UnknownResolved.{left_over, resolve_unknown_block-left_over}
use local_rusty_indexer_poc.Examples.Base.{blank, keyspace, ring, id_a, id_b, id_c, cursor_a}
use local_rusty_indexer_poc.Examples.Resolution.{paid, messages, waiting}

sent : {A : Type 0} (q q' : List A) (a : A) → some (q ++ a ∷ []) ≡ some q' → q' ≡ q ++ a ∷ []
sent q q' a h = cc

-- a channel that takes everything
abbrev unbounded : (A : Type 0) → Channel A
unbounded A = record {
  Queue = List A;
  try_send = λ q a. some (q ++ a ∷ []);
  queued = λ q. q;
  try_send-queued = λ q q' a h. sent q q' a h;
}

abbrev pending : Keyspace memory
pending = record keyspace {
  pending_sender_resolution = mark_payment_pending memory blank 11 id_a paid;
}

unknown_sender-Counted_example :
    (state' : List SenderByTxIdAndDaa × ℕ) × (unknown_sender memory
        (unbounded SenderByTxIdAndDaa)
        pending
        ([], 2)
      ≡ ok state')
    × Counted SenderByTxIdAndDaa (unbounded SenderByTxIdAndDaa) 2 state'
unfolding memory blank put mark_payment_pending pending_key_bytes to_be_bytes
unknown_sender-Counted_example =
    unknown_sender-Counted memory (unbounded SenderByTxIdAndDaa) 2 pending ([], 2) (refl, tt) refl

abbrev known : Keyspace memory
known = record waiting { block_compact_header = insert_compact_header memory blank id_b 110 11 }

ask_block-marks_example :
    (wtx' : Keyspace memory) × (ask_block memory (unbounded Bytes) known id_b (known, ([], 0))
      ≡ ok (wtx', ([], 0)))
    × (memory.get wtx'.unknown_accepting_daa id_b ≡ none)
    × ((j : Bytes)
        → memory.get wtx'.pending_sender_resolution j
          ≡ pending_after 11 messages j (memory.get known.pending_sender_resolution j))
unfolding memory blank put lookup ◌=ᵇ◌ get_daa_score insert_compact_header to_le_bytes from_le_bytes
ask_block-marks_example =
    ask_block-marks memory (unbounded Bytes) known known id_b ([], 0) 11 5 messages refl
      ((refl, record { block_time = refl; block_hash = refl; receiver = refl; tx_id = refl }), tt)
      (refl, tt) refl

-- one id whose payment is there by now, and one that nothing is known of
abbrev unknown : Keyspace memory
unknown = record keyspace {
  tx_id_to_acceptance = insert_payment_wtx memory blank id_a paid none none;
  unknown_tx = memory.insert blank id_b (join (id_a ∷ id_c ∷ []));
}

resolve_unknown_block-left_over_example :
    (wtx' : Keyspace memory) × (resolve_unknown_block memory 5 unknown
        (id_b, join (id_a ∷ id_c ∷ []))
        unknown
      ≡ ok wtx')
    × (memory.get wtx'.unknown_tx id_b
        ≡ left_over memory (id_a ∷ id_c ∷ []) (retain (remains memory unknown) (id_a ∷ id_c ∷ [])))
unfolding memory blank put lookup ◌=ᵇ◌ starts_with strip_prefix insert_payment_wtx
    acceptance_key_bytes payment_bytes get_by_tx_id decode resolution_of message_partition
    to_be_bytes
resolve_unknown_block-left_over_example =
    resolve_unknown_block-left_over memory 5 unknown unknown id_b (id_a ∷ id_c ∷ [])
      (refl, (refl, tt)) (((refl, refl), tt), (tt, tt)) refl tt

-- a round in which nothing new arrives and every call is answered
abbrev round : Round Bytes
round = record {
  is_shutdown = false;
  arrived = record { blocks = []; senders = [] };
  header_attempts = answered cursor_a ∷ [];
  sender_attempts = answered id_a ∷ [];
  is_open = true;
}

abbrev resolver : Resolver ring Bytes
resolver = new_resolver ring Bytes (some 4) (some 4) 2

abbrev requests : Requests
requests = record { blocks = id_b ∷ []; senders = record { tx_id = id_a; daa_score = 11 } ∷ [] }

-- after the answer, and after the answer about another block
abbrev once : Resolver ring Bytes
once = record resolver {
  block_requests_cache = (Fifo.insert ring resolver.block_requests_cache id_b).0;
  requests_in_progress = one_less 2;
  responses = block_found cursor_a ∷ [];
}

abbrev twice : Resolver ring Bytes
twice = record once {
  block_requests_cache = (Fifo.insert ring once.block_requests_cache id_c).0;
  requests_in_progress = one_less once.requests_in_progress;
  responses = block_found cursor_a ∷ block_found cursor_a ∷ [];
}

handle_block_request_once_example :
    handle_block_request ring Bytes round id_b twice
    ≡ some (ok (record twice { requests_in_progress = one_less twice.requests_in_progress }))
unfolding new_resolver Fifo.new Fifo.insert Fifo.contains ◌=ᵇ◌ handle_block_request
handle_block_request_once_example =
    handle_block_request_once ring Bytes round id_b cursor_a resolver ((round, id_c) ∷ []) once
      twice round (record { within = omega arith; room = omega arith }) refl refl refl
      (twice, refl, refl) (omega arith)
