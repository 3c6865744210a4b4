-- ===== src/Tests/EmbeddingRuns.antt =====
-- A worker is started, answers a request and is closed; frames go over the socket in parts.
use hermes_cashew.Base.{
  ℕ, ◌+◌, ◌≤◌, ◌≡◌, ◌↔◌, refl, Bool, true, false, List, [], ◌∷◌, ◌++◌, none, some, String, length,
  arith,
}
use hermes_cashew.Base.Int.{pos}
use hermes_cashew.Base.Value.{Value, str}
use hermes_cashew.Embedding.{unavailable, Failure, os_error, ok, raised, max_frame}
use hermes_cashew.Embedding.Frame.{
  Wake, blocked, ready, Wire, pack, unpack, receive, receive_header, receive_body, read_exact,
  read_chunks, send, send_chunks, worker_receive, worker_send,
}
use hermes_cashew.Embedding.RoundTrip.{worker_receive-send, receive-worker_send}
use hermes_cashew.Embedding.Agreement.{receive-worker_receive}
use hermes_cashew.Embedding.Request.{
  encode_request, request_payload, check_texts, checked_payload, dumps_head, dumps_items,
  dumps_text, escape, escape_code, utf8_length,
}
use hermes_cashew.Embedding.Bounds.{Accepts, encode_request_iff}
use hermes_cashew.Embedding.Messages.{
  agrees_dimension, Launch, accept_hello, accept_vectors, encode_message,
}
use hermes_cashew.Embedding.Worker.{
  Library, Running, begin, load_model, load_on_cpu, first_load, announced, effective_device,
  checked_dimension, hello_message, turn, replies,
}
use hermes_cashew.Embedding.Handshake.{accept_hello-begin}
use hermes_cashew.Embedding.Exchange.{accept_vectors-turn}
use hermes_cashew.Embedding.Supervisor.{
  Owner, starts, Supervisor, new_supervisor, claim_owner, gone, lingers, backoff, record_failure,
  when_closed, terminate, clear, resume, test_closed, check_gone, release_owner, give_up,
  take_callbacks, run_direct, split_at, run_callback, use_cpu,
}
use hermes_cashew.Embedding.Requests.{
  finish, spawn_in, proceed_in, acquire_in, start, spawned, greet_in, greeted, start_failed,
  is_retried, start_reason,
}
use hermes_cashew.Embedding.Steps.{
  Event, acquire, proceed, spawn, greet, begin_close, close, close_busy, close_terminates, checked,
  cleared, resumed, tested, released, taken, called_back, called_directly, register, claimed, run,
  step, close_in, close_busy_in, terminate_unlocked, claimed_in,
}
use hermes_cashew.Embedding.Requests as Requests
use hermes_cashew.Embedding.Sound.{IsAccounted}
use hermes_cashew.Embedding.Lifecycle.{
  registered, new-IsAccounted, run-IsAccounted, claim_owner-run,
}
use hermes_cashew.Embedding.Backoff.{doubled, failures, next_start-failures}

abbrev rooms : List Wake
rooms = ready 2 ∷ blocked ∷ ready 9 ∷ []

abbrev payload : List ℕ
payload = 7 ∷ 8 ∷ []

worker_receive-send_example :
    worker_receive (λ n. n) ((send true rooms payload).1 ++ (5 ∷ [])) ≡ some (payload, 5 ∷ [])
worker_receive-send_example =
    worker_receive-send true rooms payload (λ n. n) (5 ∷ []) (unfold send send_chunks pack in refl)

abbrev waits : List Wake
waits = ready 0 ∷ ready 0 ∷ blocked ∷ ready 0 ∷ ready 0 ∷ ready 0 ∷ ready 0 ∷ []

receive-worker_send_example :
    (ws : List Wake) × (receive
        (some (record { arriving = (0 ∷ 0 ∷ 0 ∷ 2 ∷ 7 ∷ 8 ∷ []) ++ (5 ∷ []); wakes = waits }))
      ≡ (ok payload, some (record { arriving = 5 ∷ []; wakes = ws })))
receive-worker_send_example =
    receive-worker_send payload (0 ∷ 0 ∷ 0 ∷ 2 ∷ 7 ∷ 8 ∷ []) (5 ∷ []) waits
      (unfold worker_send pack in refl) refl (omega arith)

abbrev before : Wire
before = record { arriving = 0 ∷ 0 ∷ 0 ∷ 2 ∷ 7 ∷ 8 ∷ 5 ∷ []; wakes = waits }

abbrev after : Wire
after = record { arriving = 5 ∷ []; wakes = [] }

receive-worker_receive_example : worker_receive (λ n. n) before.arriving ≡ some (payload, 5 ∷ [])
receive-worker_receive_example =
    receive-worker_receive before after payload (λ n. n)
      (unfold receive receive_header receive_body read_exact read_chunks unpack in refl)

abbrev generation : String
generation = "0123456789abcdef0123456789abcdef"

abbrev request_id : String
request_id = "00000000000000000000000000000001"

abbrev texts : List Value
texts = str "hi" ∷ str "né" ∷ []

encode_request_iff_example :
    (encode_request generation request_id texts
      ≡ ok (some (request_payload generation request_id texts)))
    ↔ (Accepts texts
        × (request_payload generation request_id texts
            ≡ request_payload generation request_id texts)
        × (length (request_payload generation request_id texts) ≤ max_frame))
encode_request_iff_example =
    encode_request_iff generation request_id texts (request_payload generation request_id texts)
      (omega arith) (omega arith)

-- a model of two columns that is loaded on the CPU only
abbrev sample_library : Library
sample_library = record {
  Model = ℕ;
  load = λ name d. elim d [ none ↦ none | some x ↦ some 1 ];
  device_of = λ m. some "cpu";
  dimension_of = λ m. some (pos 2);
  encode = λ m ts. some (record { rows = length ts; columns = 2; raw = one_row ts });
  is_finite = λ raw. true;
  json_length = λ v. 200;
}
  where
    one_row : List Value → List ℕ
    one_row [] = []
    one_row (t ∷ ts) = 0 ∷ 0 ∷ 0 ∷ 0 ∷ 0 ∷ 0 ∷ 0 ∷ 0 ∷ one_row ts

abbrev launch : Launch
launch = record { generation = generation; model = "m"; device = "auto"; dimension = 0 }

abbrev worker : Running sample_library
worker = record { model = 1; device = "cpu"; dimension = 2 }

accept_hello-begin_example :
    accept_hello launch (hello_message sample_library launch "cpu" 2)
    ≡ some (record { device = "cpu"; dimension = 2 })
accept_hello-begin_example =
    accept_hello-begin sample_library launch worker (hello_message sample_library launch "cpu" 2)
      (unfold begin load_model first_load announced effective_device checked_dimension
          agrees_dimension load_on_cpu in
        refl)
      (omega arith)

accept_vectors-turn_example :
    (header : Value) × (turn sample_library launch worker
        (encode_message generation request_id texts)
      ≡ replies header (0 ∷ 0 ∷ 0 ∷ 0 ∷ 0 ∷ 0 ∷ 0 ∷ 0 ∷ 0 ∷ 0 ∷ 0 ∷ 0 ∷ 0 ∷ 0 ∷ 0 ∷ 0 ∷ []))
    × (accept_vectors
          (λ raw. true)
          generation
          request_id
          2
          2
          (some "cpu")
          header
          (0 ∷ 0 ∷ 0 ∷ 0 ∷ 0 ∷ 0 ∷ 0 ∷ 0 ∷ 0 ∷ 0 ∷ 0 ∷ 0 ∷ 0 ∷ 0 ∷ 0 ∷ 0 ∷ [])
        ≡ true)
accept_vectors-turn_example =
    accept_vectors-turn sample_library launch worker request_id texts
      (request_payload generation request_id texts)
      (record {
        rows = 2;
        columns = 2;
        raw = 0 ∷ 0 ∷ 0 ∷ 0 ∷ 0 ∷ 0 ∷ 0 ∷ 0 ∷ 0 ∷ 0 ∷ 0 ∷ 0 ∷ 0 ∷ 0 ∷ 0 ∷ 0 ∷ [];
      })
      (omega arith) (omega arith)
      (unfold encode_request request_payload check_texts checked_payload dumps_head dumps_items
          dumps_text escape escape_code utf8_length in
        refl)
      refl (record { rows_are = refl; columns_are = refl; bytes_are = refl }) refl (omega arith)
      (omega arith)

abbrev all_finite : List ℕ → Bool
all_finite raw = true

abbrev opening : List Event
opening = register 4 ∷ acquire starts ∷ proceed 0 ∷ spawn (some 11) gone 0 ∷ claimed ∷ []

open_run :
    (run generation "m" 1000 all_finite opening (new_supervisor "mps" 0)).ending.closed ≡ false
unfolding run step when_closed spawn_in proceed_in acquire_in new_supervisor start spawned
    Requests.begin claimed_in claim_owner
open_run = refl

claim_owner-run_example :
    claim_owner (run generation "m" 1000 all_finite opening (new_supervisor "mps" 0)).ending.owner
    ≡ none
claim_owner-run_example = claim_owner-run generation "m" 1000 all_finite "mps" 0 opening open_run

-- A supervisor without a process is closed, and a callback comes late.
abbrev closing_events : List Event
closing_events =
    register 4
    ∷ begin_close
    ∷ close gone
    ∷ checked
    ∷ released
    ∷ taken
    ∷ register 5
    ∷ called_directly 0
    ∷ called_back
    ∷ []

new-IsAccounted_run : IsAccounted [] (new_supervisor "cpu" 0).ending
new-IsAccounted_run = new-IsAccounted "cpu" 0

run-IsAccounted_example :
    IsAccounted
      (4 ∷ 5 ∷ [])
      (run generation "m" 1000 all_finite closing_events (new_supervisor "cpu" 0)).ending
unfolding registered
run-IsAccounted_example =
    run-IsAccounted generation "m" 1000 all_finite closing_events [] (new_supervisor "cpu" 0)
      new-IsAccounted_run

-- the late callback overtakes the one that was registered before
overtaken_run :
    (run generation "m" 1000 all_finite closing_events (new_supervisor "cpu" 0)).ending.called
    ≡ 5 ∷ 4 ∷ []
unfolding run step when_closed close_in new_supervisor terminate check_gone release_owner give_up
    take_callbacks run_direct split_at run_callback
overtaken_run = refl

next_start-failures_example :
    (record_failure 1000 9 (failures 1000 (1 ∷ 5 ∷ []) (new_supervisor "cpu" 0))).next_start
    ≡ 9 + doubled 1000 2
next_start-failures_example =
    next_start-failures 1000 (1 ∷ 5 ∷ []) 9 (new_supervisor "cpu" 0) (unfold new_supervisor in refl)

-- Off the CPU a closed supervisor can launch once more: its first process is reaped, the slot is
-- released and taken by another, and then the failed hello is retried on the CPU.
abbrev late_launch : Supervisor
late_launch =
    run generation "m" 1000 all_finite
      (acquire starts
        ∷ proceed 0
        ∷ spawn (some 11) gone 0
        ∷ begin_close
        ∷ close_busy
        ∷ close_terminates lingers
        ∷ cleared
        ∷ resumed
        ∷ tested
        ∷ released
        ∷ claimed
        ∷ greet (raised os_error) gone 0
        ∷ spawn (some 12) lingers 0
        ∷ [])
      (new_supervisor "mps" 0)

late_launch_run : (late_launch.process ≡ some 12) × (late_launch.ending.owner ≡ Owner.another)
unfolding run step close_busy_in terminate_unlocked spawn_in proceed_in acquire_in new_supervisor
    start spawned terminate Requests.begin greet_in claimed_in claim_owner clear resume test_closed
    release_owner give_up greeted start_failed is_retried start_reason use_cpu finish record_failure
late_launch_run = (refl, refl)

-- On the CPU too the slot can be lost with a process: a reaper whose process is gone has still to
-- test `_closed` when a request launches again and `close` marks the supervisor.
abbrev late_test : Supervisor
late_test =
    run generation "m" 1000 all_finite
      (acquire starts
        ∷ proceed 0
        ∷ spawn (some 11) gone 0
        ∷ greet (raised (unavailable Failure.timeout)) lingers 0
        ∷ cleared
        ∷ resumed
        ∷ acquire starts
        ∷ proceed 5000
        ∷ spawn (some 12) gone 5000
        ∷ begin_close
        ∷ tested
        ∷ released
        ∷ claimed
        ∷ [])
      (new_supervisor "cpu" 0)

late_test_run : (late_test.process ≡ some 12) × (late_test.ending.owner ≡ Owner.another)
unfolding run step spawn_in proceed_in acquire_in new_supervisor start spawned terminate
    Requests.begin greet_in claimed_in claim_owner clear resume test_closed release_owner give_up
    greeted start_failed is_retried start_reason finish record_failure backoff
late_test_run = (refl, refl)
