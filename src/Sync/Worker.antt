-- ===== src/Sync/Worker.antt =====
-- The worker: starting a turn of its hand, and what its end does to the ledger; and the two steps of
-- a shutdown that the queue sees.
use hermes_cashew.Base.{◌-◌, Bool, true, List, [], ◌∷◌, none, some, String, ◌==◌, if◌then◌else◌}
use hermes_cashew.Health.{OutcomeLedger, start, complete, fail, drop_in_flight, reject_in_flight}
use hermes_cashew.Sync.Turns.{Item, turn, shutdown, Provider, put_nowait, get_items, sync_turn}

-- How `_drain_once` ends: with a completion or without one, with the refusal before admission, or
-- with another exception, which may tell of a partial or an uncertain persistence.
pub data Ending : Type 0 where
  completes gives_up refused : Ending
  fails : Bool → Bool → Ending

unfoldable pub begin_from : List Item → Provider → Provider
begin_from [] p = p
begin_from (shutdown ∷ rest) p = record p {
  hand = rest;
  unfinished = p.unfinished - 1;
  exited = true;
}
begin_from (turn t ∷ rest) p = record p {
  hand = rest;
  outcomes = start p.outcomes;
  running = some (t, p.generation);
}

-- the head of the loop over the items
unfoldable pub begin_turn : Provider → Provider
unfolding begin_from
begin_turn p = elim p.running [ none ↦ if p.exited then p else begin_from p.hand p | some r ↦ p ]

unfoldable pub settle_turn : Ending → OutcomeLedger → OutcomeLedger
settle_turn completes = complete
settle_turn gives_up = drop_in_flight
settle_turn refused = reject_in_flight
settle_turn (fails partial uncertain) = fail partial uncertain

-- Only the generation that started the turn hears of its end.
unfoldable pub end_turn : Ending → Provider → Provider
unfolding settle_turn
end_turn e p = elim p.running [
  | none ↦ p
  | some r ↦ record p {
    outcomes = if r.1 == p.generation then settle_turn e p.outcomes else p.outcomes;
    running = none;
    unfinished = p.unfinished - 1;
  }
]

unfoldable pub begin_shutdown : Provider → Provider
begin_shutdown p =
    if p.gate.has_queue then record p { gate = record p.gate { shutdown_started = true } } else p

-- The sentinel goes in when there is room, after the shutdown has begun.
unfoldable pub post_sentinel : Provider → Provider
unfolding put_nowait
post_sentinel p = if p.gate.shutdown_started then (put_nowait shutdown p).1 else p

-- The calls of the host and the steps of the worker, in any order.
pub data Call : Type 0 where
  syncs : String → String → String → Bool → Bool → Call
  takes begins shuts_down posts : Call
  ends : Ending → Call

unfoldable pub step : Call → Provider → Provider
unfolding sync_turn get_items begin_turn end_turn begin_shutdown post_sentinel
step (syncs user assistant session first second) p = sync_turn user assistant session first second p
step takes p = get_items p
step begins p = begin_turn p
step (ends e) p = end_turn e p
step shuts_down p = begin_shutdown p
step posts p = post_sentinel p

unfoldable pub run : List Call → Provider → Provider
unfolding step
run [] p = p
run (c ∷ cs) p = run cs (step c p)
