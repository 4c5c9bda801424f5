-- ===== src/Resolver/Accounting.antt =====
-- The count of requests in progress.
use local_rusty_indexer_poc.Prelude.{
  ℕ, suc, ◌+◌, ◌%◌, ◌^◌, ◌≡◌, Option, none, some, length, Result, ok, err,
}
use local_rusty_indexer_poc.Bytes.{Bytes}
use local_rusty_indexer_poc.FifoSet.{RingSet}
use local_rusty_indexer_poc.FifoSet as Fifo
use local_rusty_indexer_poc.Resolver.{
  Requests, Input, shutdown, block_request, sender_request, Status, idle, calling, returned, failed,
  Resolver,
}

-- the requests that wait in the two channels
abbrev pub queued : Requests → ℕ
queued q = length q.blocks + length q.senders

module _ (r : RingSet) (Address : Type 0) where
  -- the count is that many, as a number of 64 bits
  abbrev pub Counts : ℕ → Resolver r Address → Type 0
  Counts n s = s.requests_in_progress ≡ n % 2 ^ 64

  -- how the count stands when `process` does
  abbrev pub Balanced : (Requests × Resolver r Address) × Status → Type 0
  Balanced ((q, s), idle) = Counts (queued q) s
  Balanced ((q, s), calling) = Counts (suc (queued q)) s
  Balanced ((q, s), failed e) = Counts (suc (queued q)) s
  Balanced ((q, s), returned) = (queued q ≡ 0) × Counts (queued s.dropped) s

  -- an arm that ends has taken its request off the count
  abbrev TakenOff : ℕ → Option (Result (Resolver r Address)) → Type 0
  TakenOff n none = Unit {0}
  TakenOff n (some (err e)) = Unit {0}
  TakenOff n (some (ok s)) = Counts n s

  -- what is chosen is one of the waiting requests
  abbrev Chosen : Requests → Option (Input × Requests) → Type 0
  Chosen q none = Unit {0}
  Chosen q (some (shutdown, q')) = queued q ≡ queued q'
  Chosen q (some (block_request hash, q')) = queued q ≡ suc (queued q')
  Chosen q (some (sender_request i, q')) = queued q ≡ suc (queued q')

  -- how the count stands after a turn that may go on
  abbrev BalancedTurn : (Requests × Resolver r Address) × Option Status → Type 0
  BalancedTurn ((q, s), none) = Counts (queued q) s
  BalancedTurn (state, some ended) = Balanced (state, ended)
