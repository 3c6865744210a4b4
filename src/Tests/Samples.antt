-- ===== src/Tests/Samples.antt =====
-- A host for the runs: descriptors numbered from 3, locks that are always granted, a clock that
-- moves when a caller sleeps; and a body that returns a number.
use hermes_cashew.Base.{ℕ, ◌+◌, refl, true, false, List, [], ◌∷◌, none, some, arith}
use hermes_cashew.Locking.System.{System, granted, without}
use hermes_cashew.Admission.{Request}
use hermes_cashew.Admission.Operation.{returned, State, Body}
use hermes_cashew.Admission.Balance.{IsBalanced}
use hermes_cashew.Admission.Termination.{Ends}

pub record Machine : Type 0 where
  pub clock : ℕ
  pub next : ℕ
  pub files : List ℕ

abbrev pub machine : System
machine = record {
  World = Machine;
  resolve = λ p. p;
  open_file = λ p w. (some w.next, record w { next = w.next + 1; files = w.next ∷ w.files });
  flock = λ m fd w. (granted, w);
  unlock = λ fd w. (false, w);
  close_file = λ fd w. (false, record w { files = without fd w.files });
  now = λ w. w.clock;
  sleep = λ d w. record w { clock = w.clock + d };
  descriptors = λ w. w.files;
  descriptors_open = λ p w. refl;
  descriptors_flock = λ m fd w. refl;
  descriptors_unlock = λ fd w. refl;
  descriptors_close = λ fd w. refl;
  descriptors_sleep = λ d w. refl;
  now_open = λ p w. omega arith;
  now_flock = λ m fd w. omega arith;
  now_unlock = λ fd w. omega arith;
  now_close = λ fd w. omega arith;
  now_sleep = λ d w. omega arith;
}

abbrev pub start_state : State machine
start_state = record { world = record { clock = 5; next = 4; files = 3 ∷ [] }; current = none }

abbrev pub request : Request
request = record {
  graph = some "brain.db";
  cache = some "cache.db";
  model = some "m";
  embedding_dim = some 384;
  vec_dim = none;
  epoch = some 1;
  supervisor = none;
  embedding_generation = none;
  exclusive = true;
  cache_exclusive = false;
  deadline = 2;
}

abbrev pub body : Body machine ℕ ℕ
body = λ a o w. (returned 7, o, w)

pub body-IsBalanced : IsBalanced machine body
body-IsBalanced = record { keeps = λ a o w. refl; owner_open = λ a w. refl }

pub body-Ends : Ends machine body
body-Ends = record { ends = λ a o w p. cc }
