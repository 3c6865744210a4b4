-- ===== src/Embedding/Supervisor.antt =====
-- The state of `EmbeddingSupervisor`, the process-wide owner, and the operations on them that take
-- no further message: the owner and its callbacks, failures and their backoff, and termination.
-- Times are in milliseconds. A process is its number, a callback its number.
use hermes_cashew.Base.{
  ℕ, ◌+◌, ◌-◌, ◌*◌, ◌^◌, min, Bool, true, false, List, [], ◌∷◌, ◌++◌, Option, none, some, String,
  str_eq, is_some, leb, zero, suc, ◌&&◌, ◌||◌, not, if◌then◌else◌,
}
use hermes_cashew.Embedding.{Failure, default_embedding_device}

-- `_OWNER` seen from one supervisor: nobody, itself, or another one
pub data Owner : Type 0 where
  nobody itself another : Owner

-- what a request holds the lock for
pub data Job : Type 0 where
  starts : Job
  encodes : String → ℕ → Job

-- Where the holder of `_request_lock` is. `first` tells the first launch from the one on the CPU.
pub data Phase : Type 0 where
  unlocked : Phase
  admitted : Job → Phase
  spawning greeting : Job → (device : String) → (first : Bool) → Phase
  exchanging : String → ℕ → Phase

-- What ends a supervisor. The threads that are at a point of the code are counted: in `close`,
-- before the lock, after `_close_waiting`, and before the start of the cleanup; in
-- `_finish_close_after_request`, before the lock and after it; before the test for a process; in
-- `_release_owner`, before the owner is given up and before the callbacks are taken. `running` are
-- callbacks that were taken and have still to run, `direct` those that a late `_when_closed` runs.
pub record Ending : Type 0 where
  pub closed : Bool
  pub close_waiting : Bool
  pub closing : ℕ
  pub marking : ℕ
  pub delegating : ℕ
  pub finishing : ℕ
  pub unmarking : ℕ
  pub checking : ℕ
  pub releasing : ℕ
  pub notifying : ℕ
  pub owner : Owner
  pub owner_released : Bool
  pub close_callbacks : List ℕ
  pub running : List ℕ
  pub direct : List ℕ
  pub called : List ℕ

abbrev pub new_ending : Ending
new_ending = record {
  closed = false;
  close_waiting = false;
  closing = 0;
  marking = 0;
  delegating = 0;
  finishing = 0;
  unmarking = 0;
  checking = 0;
  releasing = 0;
  notifying = 0;
  owner = Owner.itself;
  owner_released = false;
  close_callbacks = [];
  running = [];
  direct = [];
  called = [];
}

pub record Supervisor : Type 0 where
  pub launch_device : String
  pub cpu_retry_used : Bool
  pub effective_device : Option String
  pub dimension : ℕ
  pub process : Option ℕ
  -- whether `_socket` is set
  pub channel : Bool
  pub reaping : Bool
  pub failure_count : ℕ
  pub next_start : ℕ
  pub ending : Ending
  -- around it: the request that holds the lock, and how the requests ended, where `none` is success
  pub phase : Phase
  pub answers : List (Option Failure)
  -- Reapers: that wait for the process, that have cleared it, that have still to test `_closed`.
  pub waiting : ℕ
  pub resuming : ℕ
  pub testing : ℕ
  -- requests that have released the lock and have still to look at `_close_waiting`
  pub looking : ℕ

-- `__init__`, after its checks: the claim succeeds, as nobody is the owner.
unfoldable pub new_supervisor : String → ℕ → Supervisor
new_supervisor device dimension = record {
  launch_device = device;
  cpu_retry_used = str_eq device default_embedding_device;
  effective_device = none;
  dimension = dimension;
  process = none;
  channel = false;
  reaping = false;
  failure_count = 0;
  next_start = 0;
  ending = new_ending;
  phase = unlocked;
  answers = [];
  waiting = 0;
  resuming = 0;
  testing = 0;
  looking = 0;
}

-- `_claim_owner`, by another supervisor: none is its EmbeddingUnavailable(OWNED).
unfoldable pub claim_owner : Owner → Option Owner
claim_owner Owner.nobody = some Owner.another
claim_owner Owner.itself = none
claim_owner Owner.another = none

-- `_release_owner`, the part under `_OWNER_LOCK`
unfoldable pub give_up : Owner → Ending → Ending
give_up Owner.itself e = record e { owner = Owner.nobody; notifying = e.notifying + 1 }
give_up Owner.nobody e = e
give_up Owner.another e = e

unfoldable pub release_owner : Ending → Ending
unfolding give_up
release_owner e =
    if leb 1 e.releasing then give_up e.owner (record e { releasing = e.releasing - 1 }) else e

-- its part under `_close_callbacks_lock`
unfoldable pub take_callbacks : Ending → Ending
take_callbacks e =
    if leb 1 e.notifying
    then record e {
      notifying = e.notifying - 1;
      owner_released = true;
      running = e.running ++ e.close_callbacks;
      close_callbacks = [];
    }
    else e

-- its loop: one callback, which may raise
unfoldable pub run_callback : List ℕ → Ending → Ending
run_callback [] e = e
run_callback (c ∷ cs) e = record e { running = cs; called = e.called ++ (c ∷ []) }

-- `_when_closed`, the part under `_close_callbacks_lock`
unfoldable pub when_closed : ℕ → Ending → Ending
when_closed callback e =
    if e.owner_released
    then record e { direct = e.direct ++ (callback ∷ []) }
    else record e { close_callbacks = e.close_callbacks ++ (callback ∷ []) }

-- Of the threads that run a callback themselves, the one at a place does.
unfoldable pub split_at : ℕ → List ℕ → Option (ℕ × List ℕ)
split_at i [] = none
split_at zero (c ∷ cs) = some (c, cs)
split_at (suc i) (c ∷ cs) = elim (split_at i cs) [ none ↦ none | some (d, ds) ↦ some (d, c ∷ ds) ]

unfoldable pub run_direct : Option (ℕ × List ℕ) → Ending → Ending
run_direct none e = e
run_direct (some (c, cs)) e = record e { direct = cs; called = e.called ++ (c ∷ []) }

-- What the two waits of `_terminate` come to: the process is gone within the budget, or it is not
-- and the reaper's thread starts, or cannot start.
pub data Teardown : Type 0 where
  gone lingers unreaped : Teardown

unfoldable pub teardown : Teardown → Supervisor → Supervisor
teardown gone s = record s { process = none }
teardown lingers s = record s { reaping = true; waiting = s.waiting + 1 }
teardown unreaped s = record s { reaping = false }

unfoldable pub terminate : Teardown → Supervisor → Supervisor
unfolding teardown
terminate t s =
    let s' : Supervisor = record s { channel = false } in
    if s.reaping || not (is_some s.process) then s' else teardown t s'

-- `min(30.0, backoff_base * 2 ** min(count - 1, 5))`, after `count` failures in a row
unfoldable pub backoff : ℕ → ℕ → ℕ
backoff base count = min 30000 (base * 2 ^ min (count - 1) 5)

unfoldable pub record_failure : ℕ → ℕ → Supervisor → Supervisor
record_failure base now s = record s {
  failure_count = s.failure_count + 1;
  next_start = now + backoff base (s.failure_count + 1);
}

unfoldable pub use_cpu : Supervisor → Supervisor
use_cpu s = record s { cpu_retry_used = true; launch_device = default_embedding_device }

-- `_reap`, when the process has been waited for at last: its three statements
unfoldable pub clear : Supervisor → Supervisor
clear s =
    if leb 1 s.waiting
    then record s { process = none; waiting = s.waiting - 1; resuming = s.resuming + 1 }
    else s

unfoldable pub resume : Supervisor → Supervisor
resume s =
    if leb 1 s.resuming
    then record s { reaping = false; resuming = s.resuming - 1; testing = s.testing + 1 }
    else s

abbrev pub to_release : Ending → Ending
to_release e = record e { releasing = e.releasing + 1 }

unfoldable pub test_closed : Supervisor → Supervisor
test_closed s =
    let s' : Supervisor = record s { testing = s.testing - 1 } in
    if leb 1 s.testing
    then if s.ending.closed then record s' { ending = to_release s.ending } else s'
    else s

-- the `finally` of a request, after the lock
unfoldable pub look : Supervisor → Supervisor
look s =
    let s' : Supervisor = record s { looking = s.looking - 1 } in
    if leb 1 s.looking
    then if s.ending.close_waiting
      then record s' { ending = record s.ending { finishing = s.ending.finishing + 1 } }
      else s'
    else s

-- `self._close_waiting = False`, before the test for a process
unfoldable pub unmark : Ending → Ending
unmark e =
    if leb 1 e.unmarking
    then record e { close_waiting = false; unmarking = e.unmarking - 1; checking = e.checking + 1 }
    else e

-- `not self._reaping and self._process is None`
unfoldable pub check_gone : Supervisor → Supervisor
check_gone s =
    let e : Ending = record s.ending { checking = s.ending.checking - 1 } in
    if leb 1 s.ending.checking
    then record s { ending = if not s.reaping && not (is_some s.process) then to_release e else e }
    else s
