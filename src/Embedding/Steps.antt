-- ===== src/Embedding/Steps.antt =====
-- `close` and the steps of all threads, between which others may step.
use hermes_cashew.Base.{
  ℕ, ◌+◌, ◌-◌, leb, Bool, true, List, [], ◌∷◌, Option, none, some, String, if◌then◌else◌,
}
use hermes_cashew.Base.Value.{Value}
use hermes_cashew.Embedding.{Result}
use hermes_cashew.Embedding.Supervisor.{
  Owner, Job, Phase, unlocked, Ending, Supervisor, claim_owner, release_owner, take_callbacks,
  run_callback, run_direct, split_at, when_closed, Teardown, terminate, clear, resume, test_closed,
  look, unmark, check_gone,
}
use hermes_cashew.Embedding.Requests.{acquire_in, proceed_in, spawn_in, greet_in, exchange_in}

pub data Event : Type 0 where
  -- the lock is granted to a request, which looks at the state at a time
  acquire : Job → Event
  proceed : (now : ℕ) → Event
  -- `Popen` raises, or returns a process
  spawn : Option ℕ → Teardown → (now : ℕ) → Event
  greet : Result Value → Teardown → (now : ℕ) → Event
  exchange : Result (Value × List ℕ) → Teardown → (now : ℕ) → Event
  -- `close` marks the supervisor; it gets the lock, or it does not and says so, terminates without
  -- the lock, and starts its cleanup or cannot
  begin_close : Event
  close : Teardown → Event
  close_busy : Event
  close_terminates : Teardown → Event
  close_delegates : Bool → Teardown → Event
  -- `_finish_close_after_request` with the lock, and what follows the lock
  finish_close : Teardown → Event
  unmarked checked : Event
  -- a request after the lock, and the statements of a reaper
  looked cleared resumed tested : Event
  -- the owner is given up, its callbacks are taken, one of them runs, a late one runs
  released taken called_back : Event
  called_directly : ℕ → Event
  register : ℕ → Event
  -- another supervisor is constructed, or is done
  claimed other_released : Event

-- `_close_locked`: with the lock
unfoldable pub close_in : Phase → Teardown → Supervisor → Supervisor
close_in unlocked t s =
    let e : Ending = record s.ending {
      closing = s.ending.closing - 1;
      checking = s.ending.checking + 1;
    } in
    if leb 1 s.ending.closing then record (terminate t s) { ending = e } else s
close_in phase t s = s

-- without it: `self._close_waiting = True`
unfoldable pub close_busy_in : Phase → Ending → Ending
close_busy_in unlocked e = e
close_busy_in phase e =
    if leb 1 e.closing
    then record e { closing = e.closing - 1; marking = e.marking + 1; close_waiting = true }
    else e

unfoldable pub terminate_unlocked : Teardown → Supervisor → Supervisor
terminate_unlocked t s =
    let e : Ending = record s.ending {
      marking = s.ending.marking - 1;
      delegating = s.ending.delegating + 1;
    } in
    if leb 1 s.ending.marking then record (terminate t s) { ending = e } else s

-- the handler around the start of the cleanup, which does not wait for the lock
unfoldable pub close_here : Phase → Teardown → Ending → Supervisor → Supervisor
close_here unlocked t e s = record (terminate t s) {
  ending = record e { unmarking = e.unmarking + 1 };
}
close_here phase t e s = record s { ending = e }

unfoldable pub delegate : Bool → Teardown → Supervisor → Supervisor
delegate can_start t s =
    let e : Ending = record s.ending { delegating = s.ending.delegating - 1 } in
    let here = close_here s.phase t e s in
    if leb 1 s.ending.delegating
    then if can_start then record s { ending = record e { finishing = e.finishing + 1 } } else here
    else s

unfoldable pub finish_close_in : Phase → Teardown → Supervisor → Supervisor
finish_close_in unlocked t s =
    let e : Ending = record s.ending {
      finishing = s.ending.finishing - 1;
      unmarking = s.ending.unmarking + 1;
    } in
    if leb 1 s.ending.finishing then record (terminate t s) { ending = e } else s
finish_close_in phase t s = s

-- what others do with a slot that is not this supervisor's
unfoldable pub claimed_in : Option Owner → Ending → Ending
claimed_in none e = e
claimed_in (some o) e = record e { owner = o }

unfoldable pub other_released_in : Owner → Ending → Ending
other_released_in Owner.another e = record e { owner = Owner.nobody }
other_released_in o e = e

-- the steps that touch nothing but the ending
abbrev pub on_ending : (Ending → Ending) → Supervisor → Supervisor
on_ending f s = record s { ending = f s.ending }

abbrev pub begin_closing : Ending → Ending
begin_closing e = record e { closed = true; closing = e.closing + 1 }

-- The settings that stay, and `np.isfinite` on the bytes of a reply.
module _ (generation model : String) (backoff_base : ℕ) (is_finite : List ℕ → Bool) where
  unfoldable pub step : Event → Supervisor → Supervisor
  step (acquire job) s = acquire_in generation model backoff_base is_finite s.phase job s
  step (proceed now) s = proceed_in generation model backoff_base is_finite s.phase now s
  step (spawn pid t now) s = spawn_in generation model backoff_base is_finite s.phase pid t now s
  step (greet r t now) s = greet_in generation model backoff_base is_finite s.phase r t now s
  step (exchange r t now) s = exchange_in generation model backoff_base is_finite s.phase r t now s
  step begin_close s = on_ending begin_closing s
  step (close t) s = close_in s.phase t s
  step close_busy s = on_ending (close_busy_in s.phase) s
  step (close_terminates t) s = terminate_unlocked t s
  step (close_delegates can_start t) s = delegate can_start t s
  step (finish_close t) s = finish_close_in s.phase t s
  step unmarked s = on_ending unmark s
  step checked s = check_gone s
  step looked s = look s
  step cleared s = clear s
  step resumed s = resume s
  step tested s = test_closed s
  step released s = on_ending release_owner s
  step taken s = on_ending take_callbacks s
  step called_back s = on_ending (run_callback s.ending.running) s
  step (called_directly i) s = on_ending (run_direct (split_at i s.ending.direct)) s
  step (register callback) s = on_ending (when_closed callback) s
  step claimed s = on_ending (claimed_in (claim_owner s.ending.owner)) s
  step other_released s = on_ending (other_released_in s.ending.owner) s

  unfoldable pub run : List Event → Supervisor → Supervisor
  run [] s = s
  run (event ∷ events) s = run events (step event s)
