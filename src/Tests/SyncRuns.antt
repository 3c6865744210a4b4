-- ===== src/Tests/SyncRuns.antt =====
-- A provider whose queue is full takes one more turn; its worker runs one.
use hermes_cashew.Base.{
  length, ◌≡◌, refl, true, false, List, [], ◌∷◌, ◌++◌, none, some, arith, drop,
}
use hermes_cashew.Base.Value.{end}
use hermes_cashew.Health.{new_ledger}
use hermes_cashew.Sync.Turns.{Turn, Item, turn, Gate, Provider, is_admitted, new_turn, sync_turn}
use hermes_cashew.Sync.Worker.{Call, syncs, takes, begins, ends, completes, shuts_down, posts, run}
use hermes_cashew.Sync.Calls.{IsSound}
use hermes_cashew.Sync.Accounting.{run-IsSound}
use hermes_cashew.Sync.Drain.{IsReady, rounds, run-drained}
use hermes_cashew.Sync.Window.{items-sync_turn}

abbrev gate : Gate
gate = record {
  write_enabled = true;
  embedding_identity_ready = true;
  config = some (record { auto_extraction = true; features = end });
  initializing = false;
  shutdown_started = false;
  has_queue = true;
}

abbrev old_turn : Turn
old_turn = record { user_content = "q"; assistant_content = "a"; session = "s" }

abbrev full_queue : List Item
full_queue =
    turn old_turn
    ∷ turn old_turn
    ∷ turn old_turn
    ∷ turn old_turn
    ∷ turn old_turn
    ∷ turn old_turn
    ∷ turn old_turn
    ∷ turn old_turn
    ∷ turn old_turn
    ∷ turn old_turn
    ∷ turn old_turn
    ∷ turn old_turn
    ∷ turn old_turn
    ∷ turn old_turn
    ∷ turn old_turn
    ∷ turn old_turn
    ∷ []

abbrev provider : Provider
provider = record {
  gate = gate;
  session_id = "s";
  last_assistant = "";
  dropped_turn_count = 0;
  generation = 1;
  outcomes = record new_ledger { accepted = 16; pending = 16 };
  items = full_queue;
  unfinished = 16;
  hand = [];
  running = none;
  exited = false;
}

provider-IsSound : IsSound provider
provider-IsSound = record {
  pending = refl;
  in_flight = refl;
  reconciled = refl;
  unfinished = refl;
  bounded = omega arith;
  plain = λ d. refl;
  current = tt;
}

abbrev calls : List Call
calls = syncs "q" "b" "" true false ∷ begins ∷ ends completes ∷ shuts_down ∷ posts ∷ takes ∷ []

run-IsSound_example : IsSound (run calls provider)
run-IsSound_example = run-IsSound calls provider provider-IsSound

items-sync_turn_example :
    (sync_turn "q" "b" "" false false provider).items
    ≡ drop 1 full_queue ++ turn (new_turn "q" "b" "" provider) ∷ []
items-sync_turn_example =
    items-sync_turn "q" "b" "" provider (unfold is_admitted in refl) (omega arith)

-- a provider with one turn to do
abbrev quiet_provider : Provider
quiet_provider = record provider {
  outcomes = record new_ledger { accepted = 1; pending = 1 };
  items = turn old_turn ∷ [];
  unfinished = 1;
}

quiet_provider-IsReady : IsReady quiet_provider
quiet_provider-IsReady = record {
  sound = record {
    pending = refl;
    in_flight = refl;
    reconciled = refl;
    unfinished = refl;
    bounded = omega arith;
    plain = λ d. refl;
    current = tt;
  };
  between = refl;
  working = refl;
  up = refl;
  plain_hand = refl;
}

run-drained_example :
    let q = run (rounds (completes ∷ [])) quiet_provider in
    (length q.items ≡ 0)
    × (length q.hand ≡ 0)
    × (q.outcomes.pending ≡ 0)
    × (q.outcomes.in_flight ≡ 0)
run-drained_example =
    run-drained (completes ∷ []) quiet_provider quiet_provider-IsReady (omega arith)
