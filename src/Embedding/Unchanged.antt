-- ===== src/Embedding/Unchanged.antt =====
-- A request never touches the owner, the callbacks and the mark of `close`.
use hermes_cashew.Base.{
  ℕ, ◌≡◌, refl, ◌∙◌, Bool, true, List, Option, none, some, String, is_some, ◌||◌, if◌then◌else◌,
  if_elim, arith,
}
use hermes_cashew.Base.Value.{Value}
use hermes_cashew.Embedding.{Failure, Result, ok, raised}
use hermes_cashew.Embedding.Messages.{Hello, accept_hello, accept_vectors}
use hermes_cashew.Embedding.Supervisor.{
  Job, starts, encodes, Phase, unlocked, admitted, spawning, greeting, exchanging, Supervisor,
  Teardown, gone, lingers, unreaped, terminate, record_failure, use_cpu,
}
use hermes_cashew.Embedding.Requests.{
  finish, start, begin, start_failed, spawned, greeted_by, greeted, encode_failed, exchanged,
  acquire_in, proceed_in, spawn_in, greet_in, exchange_in, is_cpu,
}

pub record Same (s t : Supervisor) : Type 0 where
  pub ending_same : t.ending ≡ s.ending

pub Same-refl : (s : Supervisor) → Same s s
Same-refl s = record { ending_same = refl }

Same-trans : {s t u : Supervisor} → Same s t → Same t u → Same s u
Same-trans p q = record { ending_same = q.ending_same ∙ p.ending_same }

pub Same-terminate : (t : Teardown) (s : Supervisor) → Same s (terminate t s)
unfolding terminate
Same-terminate gone s = ground arith
Same-terminate lingers s = ground arith
Same-terminate unreaped s = ground arith

Same-use_cpu : (s : Supervisor) → Same s (use_cpu s)
unfolding use_cpu
Same-use_cpu s = ground arith

module _ (generation model : String) (backoff_base : ℕ) (is_finite : List ℕ → Bool) where
  Same-finish :
      (a : Option Failure) (s : Supervisor)
      → Same s (finish generation model backoff_base is_finite a s)
  unfolding finish
  Same-finish a s = ground arith

  Same-start :
      (job : Job) (now : ℕ) (s : Supervisor)
      → Same s (start generation model backoff_base is_finite job now s)
  unfolding start finish
  Same-start job now s = ground arith

  Same-begin :
      (job : Job) (now : ℕ) (s : Supervisor)
      → Same s (begin generation model backoff_base is_finite job now s)
  unfolding begin
  Same-begin starts now s =
      if_elim (Same s) (is_some s.process) (Same-finish none s) (Same-start starts now s)
  Same-begin (encodes r n) now s =
      if_elim (Same s) (s.ending.closed || s.reaping) (Same-finish (some Failure.closed) s)
        (if_elim (Same s) (is_some s.process) (ground arith) (Same-start (encodes r n) now s))

  Same-start_failed :
      (job : Job) (first : Bool) (reason : Failure) (now : ℕ) (s : Supervisor)
      → Same s (start_failed generation model backoff_base is_finite job first reason now s)
  unfolding start_failed finish record_failure use_cpu
  Same-start_failed job first reason now s = ground arith

  Same-stopped :
      (job : Job) (first : Bool) (reason : Failure) (t : Teardown) (now : ℕ) (s : Supervisor)
      → Same s (
          start_failed generation model backoff_base is_finite job first reason now (terminate t s))
  Same-stopped job first reason t now s =
      Same-trans (Same-terminate t s) (Same-start_failed job first reason now (terminate t s))

  Same-spawned :
      (job : Job) (device : String) (first : Bool) (pid : Option ℕ) (t : Teardown) (now : ℕ)
      (s : Supervisor)
      → Same s (spawned generation model backoff_base is_finite job device first pid t now s)
  unfolding spawned
  Same-spawned job device first none t now s = Same-start_failed job first Failure.startup now s
  Same-spawned job device first (some pid) t now s =
      let s' : Supervisor = record s { process = some pid; channel = true } in
      let p : Same s s' = ground arith in
      if_elim (Same s) s.ending.closed
        (Same-trans p (Same-stopped job first Failure.closed t now s')) (ground arith)

  Same-greeted_by :
      (job : Job) (h : Hello) (s : Supervisor)
      → Same s (greeted_by generation model backoff_base is_finite job h s)
  unfolding greeted_by finish use_cpu
  Same-greeted_by starts h s = ground arith
  Same-greeted_by (encodes r n) h s = ground arith

  Same-greeted :
      (job : Job) (device : String) (first : Bool) (r : Result Value) (t : Teardown) (now : ℕ)
      (s : Supervisor)
      → Same s (greeted generation model backoff_base is_finite job device first r t now s)
  unfolding greeted
  Same-greeted job device first (raised e) t now s = Same-stopped job first _ t now s
  Same-greeted job device first (ok x) t now s = checked (accept_hello _ x)
    where
      checked :
          (o : Option Hello)
          → Same s (elim o as (λ _. Supervisor) [
            | none ↦
                start_failed generation model backoff_base is_finite job first Failure.protocol now
                  (terminate t s)
            | some h ↦ greeted_by generation model backoff_base is_finite job h s
          ])
      checked none = Same-stopped job first _ t now s
      checked (some h) = Same-greeted_by job h s

  Same-encode_failed :
      (reason : Failure) (t : Teardown) (now : ℕ) (s : Supervisor)
      → Same s (encode_failed generation model backoff_base is_finite reason t now s)
  unfolding encode_failed record_failure
  Same-encode_failed reason t now s =
      let s' = if is_cpu s.effective_device then s else use_cpu s in
      let p : Same s s' =
        if_elim (Same s) (is_cpu s.effective_device) (Same-refl s) (Same-use_cpu s) in
      Same-trans (Same-trans p (Same-terminate t s')) (
        Same-trans {t = record_failure backoff_base now (terminate t s')} (ground arith)
          (Same-finish (some reason) _))

  Same-exchanged :
      (i : String) (n : ℕ) (r : Result (Value × List ℕ)) (t : Teardown) (now : ℕ) (s : Supervisor)
      → Same s (exchanged generation model backoff_base is_finite i n r t now s)
  unfolding exchanged finish
  Same-exchanged i n (raised e) t now s = Same-encode_failed _ t now s
  Same-exchanged i n (ok (header, raw)) t now s =
      if_elim (Same s)
        (accept_vectors is_finite generation i n s.dimension s.effective_device header raw)
        (ground arith) (Same-encode_failed Failure.protocol t now s)

  pub Same-acquire_in :
      (p : Phase) (job : Job) (s : Supervisor)
      → Same s (acquire_in generation model backoff_base is_finite p job s)
  unfolding acquire_in
  Same-acquire_in unlocked job s = ground arith
  Same-acquire_in p job s = Same-refl s

  pub Same-proceed_in :
      (p : Phase) (now : ℕ) (s : Supervisor)
      → Same s (proceed_in generation model backoff_base is_finite p now s)
  unfolding proceed_in
  Same-proceed_in (admitted job) now s = Same-begin job now s
  Same-proceed_in p now s = Same-refl s

  pub Same-spawn_in :
      (p : Phase) (pid : Option ℕ) (t : Teardown) (now : ℕ) (s : Supervisor)
      → Same s (spawn_in generation model backoff_base is_finite p pid t now s)
  unfolding spawn_in
  Same-spawn_in (spawning j d f) pid t now s = Same-spawned j d f pid t now s
  Same-spawn_in p pid t now s = Same-refl s

  pub Same-greet_in :
      (p : Phase) (r : Result Value) (t : Teardown) (now : ℕ) (s : Supervisor)
      → Same s (greet_in generation model backoff_base is_finite p r t now s)
  unfolding greet_in
  Same-greet_in (greeting j d f) r t now s = Same-greeted j d f r t now s
  Same-greet_in p r t now s = Same-refl s

  pub Same-exchange_in :
      (p : Phase) (r : Result (Value × List ℕ)) (t : Teardown) (now : ℕ) (s : Supervisor)
      → Same s (exchange_in generation model backoff_base is_finite p r t now s)
  unfolding exchange_in
  Same-exchange_in (exchanging i n) r t now s = Same-exchanged i n r t now s
  Same-exchange_in p r t now s = Same-refl s
