-- ===== src/Embedding/Requests.antt =====
-- The requests of a supervisor, cut where another thread may come in. A message comes as what was
-- received or as the exception that receiving it raised.
use hermes_cashew.Base.{
  ℕ, ◌+◌, Bool, true, false, List, [], ◌∷◌, ◌++◌, Option, none, some, String, str_eq, ltb, is_some,
  ◌&&◌, ◌||◌, not, ◌==◌, if◌then◌else◌,
}
use hermes_cashew.Base.Value.{Value}
use hermes_cashew.Embedding.{
  Failure, Exception, unavailable, os_error, value_error, Result, ok, raised,
  default_embedding_device,
}
use hermes_cashew.Embedding.Messages.{Hello, accept_hello, accept_vectors}
use hermes_cashew.Embedding.Supervisor.{
  Job, starts, encodes, Phase, unlocked, admitted, spawning, greeting, exchanging, Supervisor,
  Teardown, terminate, record_failure, use_cpu,
}

-- `effective_device != "cpu"`
unfoldable pub is_cpu : Option String → Bool
is_cpu none = false
is_cpu (some d) = str_eq d default_embedding_device

-- what `_start_once` makes of an exception while it waits for the hello
unfoldable pub start_reason : Exception → Failure
start_reason (unavailable f) = f
start_reason os_error = Failure.exited
start_reason value_error = Failure.protocol

-- what `_encode_owned` makes of one
unfoldable pub encode_reason : Exception → Failure
encode_reason (unavailable f) = f
encode_reason os_error = Failure.protocol
encode_reason value_error = Failure.protocol

-- the reasons that allow a second launch
unfoldable pub is_retried : Failure → Bool
is_retried Failure.startup = true
is_retried Failure.exited = true
is_retried Failure.timeout = true
is_retried f = false

-- The settings that stay, and `np.isfinite` on the bytes of a reply.
module _ (generation model : String) (backoff_base : ℕ) (is_finite : List ℕ → Bool) where
  -- the request is over, and its lock is released
  unfoldable pub finish : Option Failure → Supervisor → Supervisor
  finish answer s = record s {
    phase = unlocked;
    answers = s.answers ++ (answer ∷ []);
    looking = s.looking + 1;
  }

  -- `_start` up to its first launch
  unfoldable pub start : Job → ℕ → Supervisor → Supervisor
  start job now s =
      if s.ending.closed || s.reaping
      then finish (some Failure.closed) s
      else if ltb now s.next_start
      then finish (some Failure.busy) s
      else record s { phase = spawning job s.launch_device true }

  -- A request with the lock: `start` leaves a process as it is, `_encode_owned` uses it.
  unfoldable pub begin : Job → ℕ → Supervisor → Supervisor
  begin starts now s =
      let started = start starts now s in if is_some s.process then finish none s else started
  begin (encodes request_id count) now s =
      let started = start (encodes request_id count) now s in
      if s.ending.closed || s.reaping
      then finish (some Failure.closed) s
      else if is_some s.process
      then record s { phase = exchanging request_id count }
      else started

  -- the handlers of `_start` around its launches
  unfoldable pub start_failed : Job → Bool → Failure → ℕ → Supervisor → Supervisor
  start_failed job first reason now s =
      let failed = finish (some reason) (record_failure backoff_base now s) in
      if first
        && not s.cpu_retry_used
        && not (str_eq s.launch_device default_embedding_device)
        && not s.reaping
        && not (is_some s.process)
        && is_retried reason
      then record (use_cpu s) { phase = spawning job default_embedding_device false }
      else failed

  -- `_start_once`, from `Popen` to the check of `_closed`
  unfoldable pub spawned : Job → String → Bool → Option ℕ → Teardown → ℕ → Supervisor → Supervisor
  spawned job device first none t now s = start_failed job first Failure.startup now s
  spawned job device first (some pid) t now s =
      let s' : Supervisor = record s { process = some pid; channel = true } in
      if s.ending.closed
      then start_failed job first Failure.closed now (terminate t s')
      else record s' { phase = greeting job device first }

  -- a worker that is accepted
  unfoldable pub greeted_by : Job → Hello → Supervisor → Supervisor
  greeted_by job h s =
      let s' : Supervisor = record s {
        dimension = if s.dimension == 0 then h.dimension else s.dimension;
        effective_device = some h.device;
      } in
      let s'' = if str_eq h.device default_embedding_device then use_cpu s' else s' in
      elim job [
        | starts ↦ finish none s''
        | encodes request_id count ↦ record s'' { phase = exchanging request_id count }
      ]

  -- `_start_once`, from the hello on
  unfoldable pub greeted :
      Job → String → Bool → Result Value → Teardown → ℕ → Supervisor → Supervisor
  greeted job device first (raised e) t now s =
      start_failed job first (start_reason e) now (terminate t s)
  greeted job device first (ok v) t now s =
      elim (accept_hello
        (record {
          generation = generation;
          model = model;
          device = device;
          dimension = s.dimension;
        })
        v) [
          | none ↦ start_failed job first Failure.protocol now (terminate t s)
          | some h ↦ greeted_by job h s
        ]

  -- the handlers of `_encode_owned`
  unfoldable pub encode_failed : Failure → Teardown → ℕ → Supervisor → Supervisor
  encode_failed reason t now s =
      let s' = if is_cpu s.effective_device then s else use_cpu s in
      finish (some reason) (record_failure backoff_base now (terminate t s'))

  unfoldable pub exchanged :
      String → ℕ → Result (Value × List ℕ) → Teardown → ℕ → Supervisor → Supervisor
  exchanged request_id count (raised e) t now s = encode_failed (encode_reason e) t now s
  exchanged request_id count (ok (header, raw)) t now s =
      if accept_vectors is_finite generation request_id count s.dimension s.effective_device header
        raw
      then finish none (record s { failure_count = 0; next_start = 0 })
      else encode_failed Failure.protocol t now s

  -- An event that cannot happen in a phase changes nothing.
  unfoldable pub acquire_in : Phase → Job → Supervisor → Supervisor
  acquire_in unlocked job s = record s { phase = admitted job }
  acquire_in phase job s = s

  unfoldable pub proceed_in : Phase → ℕ → Supervisor → Supervisor
  proceed_in (admitted job) now s = begin job now s
  proceed_in phase now s = s

  unfoldable pub spawn_in : Phase → Option ℕ → Teardown → ℕ → Supervisor → Supervisor
  spawn_in (spawning job device first) pid t now s = spawned job device first pid t now s
  spawn_in phase pid t now s = s

  unfoldable pub greet_in : Phase → Result Value → Teardown → ℕ → Supervisor → Supervisor
  greet_in (greeting job device first) r t now s = greeted job device first r t now s
  greet_in phase r t now s = s

  unfoldable pub exchange_in :
      Phase → Result (Value × List ℕ) → Teardown → ℕ → Supervisor → Supervisor
  exchange_in (exchanging request_id count) r t now s = exchanged request_id count r t now s
  exchange_in phase r t now s = s
