-- ===== src/Telemetry/Worker.antt =====
-- The diagnostics worker's handle, `SentryTelemetry`: its queue of 16 places and its process. The
-- multiprocessing library is not modelled; what a call of it may do stands in the arguments:
-- whether the process ends within a wait.
use hermes_cashew.Base.{
  ℕ, ◌≤◌, ◌≡◌, refl, subst, sym, zero, suc, Bool, true, false, List, [], ◌∷◌, ◌++◌, Option, none,
  some, arith, String, length, length-append, ltb, if◌then◌else◌, if_elim, All, All-append,
}
use hermes_cashew.Base.Value.{Value, Fields}
use hermes_cashew.Telemetry.Buckets.{Result, ok, overflow}
use hermes_cashew.Telemetry.Events.{Arguments, event, canonical_event}
use hermes_cashew.Telemetry.Privacy.{is_public, canonical_event-public}

-- What a call has still to do after it has released the lock: a capture looks at the process and
-- puts, a close puts the request to stop, closes the queue and waits for the process twice.
pub data Task : Type 0 where
  asks puts : Value → Task
  stops shuts joins rejoins : Task

-- A message is an event, or `none` for the request to stop.
pub record SentryTelemetry : Type 0 where
  pub messages : List (Option Value)
  pub queue_closed : Bool
  pub alive : Bool
  pub terminated : Bool
  pub closed : Bool
  pub threads : List Task

abbrev pub maxsize : ℕ
maxsize = 16

-- `events.put_nowait`, which leaves a full or closed queue as it is and raises
unfoldable pub put_nowait : Option Value → SentryTelemetry → SentryTelemetry
put_nowait m t =
    if ltb (length t.messages) maxsize
    then (if t.queue_closed then t else record t { messages = t.messages ++ m ∷ [] })
    else t

abbrev pub begin_task : Task → SentryTelemetry → SentryTelemetry
begin_task task t = record t { threads = t.threads ++ task ∷ [] }

-- `close` and `capture` up to the release of the lock
unfoldable pub close : SentryTelemetry → SentryTelemetry
close t = if t.closed then t else begin_task stops (record t { closed = true })

unfoldable pub capture : Value → SentryTelemetry → SentryTelemetry
capture e t = if t.closed then t else begin_task (asks e) t

-- What follows, where `exits` says whether the process has ended by the end of a wait. A value that
-- cannot be made canonical raises, and the handler drops it.
unfoldable pub continue_task : Task → (exits : Bool) → SentryTelemetry → SentryTelemetry
continue_task (asks e) exits t = if t.alive then begin_task (puts e) t else t
continue_task (puts e) exits t = elim (canonical_event e) [
  | overflow ↦ t
  | ok w ↦ put_nowait (some w) t
]
continue_task stops exits t = begin_task shuts (put_nowait none t)
continue_task shuts exits t = begin_task joins (record t { queue_closed = true })
continue_task joins exits t =
    let joined : SentryTelemetry = record t { alive = if exits then false else t.alive } in
    if joined.alive then begin_task rejoins (record joined { terminated = true }) else joined
continue_task rejoins exits t = record t { alive = if exits then false else t.alive }

unfoldable pub task_at : ℕ → List Task → Option Task
task_at i [] = none
task_at zero (task ∷ rest) = some task
task_at (suc i) (task ∷ rest) = task_at i rest

unfoldable pub without : ℕ → List Task → List Task
without i [] = []
without zero (task ∷ rest) = rest
without (suc i) (task ∷ rest) = task ∷ without i rest

-- The thread at a place goes on, if there is one.
unfoldable pub go_on : ℕ → Bool → SentryTelemetry → SentryTelemetry
go_on i exits t = elim (task_at i t.threads) [
  | none ↦ t
  | some task ↦ continue_task task exits (record t { threads = without i t.threads })
]

-- `capture_exception` through a handle; an event that cannot be built is dropped too.
unfoldable pub capture_exception :
    String → Value → Arguments → Option Fields → Option SentryTelemetry → Option SentryTelemetry
capture_exception error op a extra none = none
capture_exception error op a extra (some t) = elim (event error op a extra) [
  | overflow ↦ some t
  | ok e ↦ some (capture e t)
]

-- The calls of a provider, the threads that go on after the lock, and the worker process taking a
-- message or ending on its own.
pub data Call : Type 0 where
  captures : Value → Call
  closes : Call
  goes_on : ℕ → Bool → Call
  takes ends : Call

abbrev rest_of : List (Option Value) → List (Option Value)
rest_of [] = []
rest_of (m ∷ ms) = ms

unfoldable pub step : SentryTelemetry → Call → SentryTelemetry
step t (captures e) = capture e t
step t closes = close t
step t (goes_on i exits) = go_on i exits t
step t takes = record t { messages = rest_of t.messages }
step t ends = record t { alive = false }

unfoldable pub run : SentryTelemetry → List Call → SentryTelemetry
run t [] = t
run t (c ∷ cs) = run (step t c) cs

abbrev pub PublicMessage : Option Value → Type 0
PublicMessage none = Unit
PublicMessage (some w) = is_public w ≡ true

pub record IsContained (t : SentryTelemetry) : Type 0 where
  pub messages : All PublicMessage t.messages
  pub bounded : length t.messages ≤ maxsize

put_nowait-IsContained :
    (m : Option Value) (t : SentryTelemetry)
    → PublicMessage m
    → IsContained t
    → IsContained (put_nowait m t)
unfolding put_nowait
put_nowait-IsContained m t p c = ground (
  arith,
  All-append PublicMessage t.messages (m ∷ []) c.messages (p, tt),
  length-append t.messages (m ∷ []),
)

-- The other fields play no part.
IsContained-by : (t u : SentryTelemetry) → u.messages ≡ t.messages → IsContained t → IsContained u
IsContained-by t u e c = record {
  messages = subst (All PublicMessage) (sym e) c.messages;
  bounded = rw e c.bounded;
}

module _ (e : Value) (t : SentryTelemetry) (c : IsContained t) where
  canonical-IsContained :
      (r : Result Value)
      → canonical_event e ≡ r
      → IsContained
          (elim r as (λ x. SentryTelemetry) [ overflow ↦ t | ok w ↦ put_nowait (some w) t ])
  canonical-IsContained overflow h = c
  canonical-IsContained (ok w) h =
      put_nowait-IsContained (some w) t (canonical_event-public e w h) c

  capture-IsContained : IsContained (capture e t)
  unfolding capture
  capture-IsContained = if_elim IsContained t.closed c (IsContained-by t _ refl c)

close-IsContained : (t : SentryTelemetry) → IsContained t → IsContained (close t)
unfolding close
close-IsContained t c = if_elim IsContained t.closed c (IsContained-by t _ refl c)

continue_task-IsContained :
    (task : Task) (exits : Bool) (t : SentryTelemetry)
    → IsContained t
    → IsContained (continue_task task exits t)
unfolding continue_task
continue_task-IsContained (asks e) exits t c =
    if_elim IsContained t.alive (IsContained-by t _ refl c) c
continue_task-IsContained (puts e) exits t c = canonical-IsContained e t c (canonical_event e) refl
continue_task-IsContained stops exits t c =
    IsContained-by (put_nowait none t) _ refl (put_nowait-IsContained none t tt c)
continue_task-IsContained shuts exits t c = IsContained-by t _ refl c
continue_task-IsContained joins exits t c =
    if_elim IsContained (if exits then false else t.alive) (IsContained-by t _ refl c)
      (IsContained-by t _ refl c)
continue_task-IsContained rejoins exits t c = IsContained-by t _ refl c

go_on-IsContained :
    (i : ℕ) (exits : Bool) (t : SentryTelemetry) → IsContained t → IsContained (go_on i exits t)
unfolding go_on
go_on-IsContained i exits t c = found (task_at i t.threads)
  where
    found :
        (o : Option Task)
        → IsContained (elim o as (λ x. SentryTelemetry) [
          | none ↦ t
          | some task ↦ continue_task task exits (record t { threads = without i t.threads })
        ])
    found none = c
    found (some task) = continue_task-IsContained task exits _ (IsContained-by t _ refl c)

rest-IsContained :
    (ms : List (Option Value)) → All PublicMessage ms → All PublicMessage (rest_of ms)
rest-IsContained [] p = tt
rest-IsContained (m ∷ ms) p = p.1

length-rest : (ms : List (Option Value)) → length (rest_of ms) ≤ length ms
length-rest [] = omega arith
length-rest (m ∷ ms) = omega arith

step-IsContained : (t : SentryTelemetry) (c : Call) → IsContained t → IsContained (step t c)
unfolding step
step-IsContained t (captures e) h = capture-IsContained e t h
step-IsContained t closes h = close-IsContained t h
step-IsContained t (goes_on i exits) h = go_on-IsContained i exits t h
step-IsContained t takes h = record {
  messages = rest-IsContained t.messages h.messages;
  bounded = omega (arith, length-rest t.messages, h.bounded);
}
step-IsContained t ends h = record { messages = h.messages; bounded = h.bounded }

-- From a contained handle, any sequence of captures, closes, steps of their threads after the
-- lock in any order, and steps of the worker keeps the queue at 16 messages or fewer, each event
-- in it public.
pub run-IsContained :
    (t : SentryTelemetry) (cs : List Call) → IsContained t → IsContained (run t cs)
unfolding run
run-IsContained t [] h = h
run-IsContained t (c ∷ cs) h = run-IsContained (step t c) cs (step-IsContained t c h)
