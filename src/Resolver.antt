-- ===== src/Resolver.antt =====
-- indexer-lib/src/resolver.rs: the requests for headers and senders, one at a time. What the node
-- answers, and whether the response channel takes a message, are given.
pub mod Accounting
pub mod Cached
use local_rusty_indexer_poc.Prelude.{
  ℕ, ◌+◌, ◌-◌, ◌*◌, ◌%◌, ◌^◌, Bool, true, false, Option, none, some, List, [], ◌∷◌, ◌++◌, length,
  ltb, if◌then◌else◌, Result, ok, err, Error, ◌>>=◌, channel_closed, app_stopped, rpc_failed,
}
use local_rusty_indexer_poc.Bytes.{Bytes}
use local_rusty_indexer_poc.Bytes.Endian.{to_be_bytes}
use local_rusty_indexer_poc.FifoSet.{RingSet, FifoSet}
use local_rusty_indexer_poc.FifoSet as Fifo
use local_rusty_indexer_poc.Metadata.{Cursor}

pub record SenderByTxIdAndDaa : Type 0 where
  pub tx_id : Bytes
  pub daa_score : ℕ

-- a request as a key of the cache
unfoldable pub request_bytes : SenderByTxIdAndDaa → Bytes
request_bytes i = to_be_bytes 8 i.daa_score ++ i.tx_id

-- `ResolverResponse`, over the node's addresses; of a header, the three fields that are read
pub data ResolverResponse (Address : Type 0) : Type 0 where
  block_found : Cursor → ResolverResponse Address
  block_failed : Bytes → ResolverResponse Address
  sender_found : Address → SenderByTxIdAndDaa → ResolverResponse Address
  sender_failed : SenderByTxIdAndDaa → ResolverResponse Address

-- what one round of a retry loop meets: the application stopped, no connection, or a call that is
-- answered, lost (a disconnection or a timeout), or refused
pub data Attempt (A : Type 0) : Type 0 where
  stopped not_connected lost refused : Attempt A
  answered : A → Attempt A

-- The retry loops of both calls. The loop still waits when the attempts end.
unfoldable pub with_retries : {A : Type 0} → List (Attempt A) → Option (Result A)
with_retries [] = none
with_retries (stopped ∷ attempts) = some (err app_stopped)
with_retries (not_connected ∷ attempts) = with_retries attempts
with_retries (lost ∷ attempts) = with_retries attempts
with_retries (refused ∷ attempts) = some (err rpc_failed)
with_retries (answered a ∷ attempts) = some (ok a)

abbrev pub get_block_with_retries : List (Attempt Cursor) → Option (Result Cursor)
get_block_with_retries attempts = with_retries attempts

abbrev pub get_utxo_return_address_with_retries :
    {Address : Type 0} → List (Attempt Address) → Option (Result Address)
get_utxo_return_address_with_retries attempts = with_retries attempts

-- `fetch_add(1)` and `fetch_sub(1)` on 64 bits
abbrev pub one_more : ℕ → ℕ
one_more n = (n + 1) % 2 ^ 64

abbrev pub one_less : ℕ → ℕ
one_less n = (n + (2 ^ 64 - 1)) % 2 ^ 64

-- the size of a cache: the capacity of the request channel, if it has one that is not 0
abbrev pub cache_size : Option ℕ → ℕ → ℕ
cache_size none default = default
cache_size (some cap) default = if ltb 0 cap then cap else default

pub data Input : Type 0 where
  shutdown : Input
  block_request : Bytes → Input
  sender_request : SenderByTxIdAndDaa → Input

-- the two request channels
pub record Requests : Type 0 where
  pub blocks : List Bytes
  pub senders : List SenderByTxIdAndDaa

-- `biased`: the signal first, then a sender, then a block; `none` while there is nothing
unfoldable pub select_input : Bool → Requests → Option (Input × Requests)
select_input true q = some (shutdown, q)
select_input false q = elim q.senders [
  | i ∷ senders ↦ some (sender_request i, record q { senders = senders })
  | [] ↦ elim q.blocks [
    | hash ∷ blocks ↦ some (block_request hash, record q { blocks = blocks })
    | [] ↦ none
  ]
]

-- what one round of `process` meets: the shutdown signal, the requests that arrive before it, the
-- attempts of its call, and whether the response channel is open
pub record Round (Address : Type 0) : Type 0 where
  pub is_shutdown : Bool
  pub arrived : Requests
  pub header_attempts : List (Attempt Cursor)
  pub sender_attempts : List (Attempt Address)
  pub is_open : Bool

-- how `process` stands: no input, in a call, back, or ended by an error
pub data Status : Type 0 where
  idle calling returned : Status
  failed : Error → Status

module _ (r : RingSet) (Address : Type 0) where
  pub record Resolver : Type 0 where
    pub block_requests_cache : FifoSet r
    pub sender_request_cache : FifoSet r
    pub requests_in_progress : ℕ
    -- the responses that the periodic processor was sent, in order
    pub responses : List (ResolverResponse Address)
    -- the requests that the drain after the shutdown signal drops, which no field of the source holds
    pub dropped : Requests

  -- `Resolver::new`, by the capacities of the two request channels
  unfoldable pub new_resolver : Option ℕ → Option ℕ → ℕ → Resolver
  new_resolver block_capacity sender_capacity in_progress = record {
    block_requests_cache = Fifo.new r (cache_size block_capacity 256);
    sender_request_cache = Fifo.new r (cache_size sender_capacity (256 * 300));
    requests_in_progress = in_progress;
    responses = [];
    dropped = record { blocks = []; senders = [] };
  }

  -- `response_tx.send(…).await?`
  unfoldable pub respond : Bool → ResolverResponse Address → Resolver → Result Resolver
  respond is_open response s =
      if is_open
      then ok (record s { responses = s.responses ++ response ∷ [] })
      else err channel_closed

  -- what follows the call for a header
  unfoldable pub answer_block : Bool → Bytes → Result Cursor → Resolver → Result Resolver
  unfolding respond
  answer_block is_open hash (ok header) s = do
    s' ← respond is_open (block_found header) s
    ok (record s' {
      block_requests_cache = (Fifo.insert r s'.block_requests_cache hash).0;
      requests_in_progress = one_less s'.requests_in_progress;
    })
  answer_block is_open hash (err _) s = do
    s' ← respond is_open (block_failed hash) s
    ok (record s' { requests_in_progress = one_less s'.requests_in_progress })

  -- what follows the call for a sender
  unfoldable pub answer_sender :
      Bool → SenderByTxIdAndDaa → Result Address → Resolver → Result Resolver
  unfolding respond request_bytes
  answer_sender is_open i (ok sender) s = do
    s' ← respond is_open (sender_found sender i) s
    ok (record s' {
      sender_request_cache = (Fifo.insert r s'.sender_request_cache (request_bytes i)).0;
      requests_in_progress = one_less s'.requests_in_progress;
    })
  answer_sender is_open i (err _) s = do
    s' ← respond is_open (sender_failed i) s
    ok (record s' { requests_in_progress = one_less s'.requests_in_progress })

  -- the arm of a block request; `none` while it is in its call
  unfoldable pub handle_block_request : Round Address → Bytes → Resolver → Option (Result Resolver)
  unfolding answer_block with_retries
  handle_block_request round hash s =
      if Fifo.contains r s.block_requests_cache hash
      then some (ok (record s { requests_in_progress = one_less s.requests_in_progress }))
      else elim (get_block_with_retries round.header_attempts) [
        | none ↦ none
        | some answer ↦ some (answer_block round.is_open hash answer s)
      ]

  -- the arm of a sender request
  unfoldable pub handle_sender_request :
      Round Address → SenderByTxIdAndDaa → Resolver → Option (Result Resolver)
  unfolding answer_sender with_retries request_bytes
  handle_sender_request round i s =
      if Fifo.contains r s.sender_request_cache (request_bytes i)
      then some (ok (record s { requests_in_progress = one_less s.requests_in_progress }))
      else elim (get_utxo_return_address_with_retries round.sender_attempts) [
        | none ↦ none
        | some answer ↦ some (answer_sender round.is_open i answer s)
      ]

  -- The requests that arrive are counted where they are sent, in `unknown_daa` and `unknown_sender`.
  unfoldable pub arrive : Requests → Requests × Resolver → Requests × Resolver
  arrive new (q, s) = (
    record { blocks = q.blocks ++ new.blocks; senders = q.senders ++ new.senders },
    record s {
      requests_in_progress =
          (s.requests_in_progress + (length new.blocks + length new.senders)) % 2 ^ 64;
    },
  )

  -- one input; after the shutdown signal both channels are drained, and the count stays
  unfoldable pub handle_input :
      Round Address → Input → Requests × Resolver → Requests × Option (Result Resolver)
  unfolding handle_block_request handle_sender_request
  handle_input round (block_request hash) (q, s) = (q, handle_block_request round hash s)
  handle_input round (sender_request i) (q, s) = (q, handle_sender_request round i s)
  handle_input round shutdown (q, s) =
      (record { blocks = []; senders = [] }, some (ok (record s { dropped = q })))

  -- where an input leaves `process`; `none` while it goes on
  unfoldable pub settle :
      Input → Resolver → Requests × Option (Result Resolver) → (Requests × Resolver) × Option Status
  settle input s (q, none) = ((q, s), some calling)
  settle input s (q, some (err e)) = ((q, s), some (failed e))
  settle shutdown s (q, some (ok s')) = ((q, s'), some returned)
  settle (block_request hash) s (q, some (ok s')) = ((q, s'), none)
  settle (sender_request i) s (q, some (ok s')) = ((q, s'), none)

  unfoldable pub process_input :
      Round Address
      → Option (Input × Requests)
      → Requests × Resolver
      → (Requests × Resolver) × Option Status
  unfolding handle_input settle
  process_input round none state = (state, none)
  process_input round (some (input, q')) (q, s) = settle input s (handle_input round input (q', s))

  -- one turn of the loop
  unfoldable pub process_round :
      Round Address → Requests × Resolver → (Requests × Resolver) × Option Status
  unfolding arrive select_input process_input
  process_round round (q, s) =
      let (q', s') = arrive round.arrived (q, s) in
      process_input round (select_input round.is_shutdown q') (q', s')

  -- the loop; the rounds that are left over are not met
  unfoldable pub process :
      List (Round Address) → Requests × Resolver → (Requests × Resolver) × Status
  unfolding process_round
  process [] state = (state, idle)
  process (round ∷ rounds) state =
      let (state', status) = process_round round state in
      elim status [ none ↦ process rounds state' | some ended ↦ (state', ended) ]
