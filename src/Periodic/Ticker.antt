-- ===== src/Periodic/Ticker.antt =====
-- `run_ticker` of indexer-lib/src/periodic_processor.rs: a tick is asked for only after the work of
-- the one before is done.
use local_rusty_indexer_poc.Prelude.{
  ℕ, suc, Bool, true, false, Option, none, some, List, [], ◌∷◌, if◌then◌else◌, channel_closed,
}
use local_rusty_indexer_poc.Resolver.{Status, idle, returned, failed}

-- what the select gives: the interval is over, with whether the worker's channel takes a tick; the
-- work is done, or its channel is closed; the shutdown signal, or its closed channel
pub data TickerEvent : Type 0 where
  interval_over : Bool → TickerEvent
  job_done job_done_closed shutdown shutdown_closed : TickerEvent

pub record Ticker : Type 0 where
  pub need_to_send : Bool
  -- the ticks that the worker was sent
  pub ticks : ℕ

abbrev pub new_ticker : Ticker
new_ticker = record { need_to_send = true; ticks = 0 }

-- a failed send is only logged, and counts as sent
unfoldable pub ticker_event : TickerEvent → Ticker → Ticker × Option Status
ticker_event (interval_over is_open) t =
    if t.need_to_send
    then (record { need_to_send = false; ticks = if is_open then suc t.ticks else t.ticks }, none)
    else (t, none)
ticker_event job_done t = (record t { need_to_send = true }, none)
ticker_event job_done_closed t = (t, some (failed channel_closed))
ticker_event shutdown t = (t, some returned)
ticker_event shutdown_closed t = (t, some (failed channel_closed))

unfoldable pub run_ticker : List TickerEvent → Ticker → Ticker × Status
unfolding ticker_event
run_ticker [] t = (t, idle)
run_ticker (e ∷ events) t =
    let (t', status) = ticker_event e t in
    elim status [ none ↦ run_ticker events t' | some ended ↦ (t', ended) ]
