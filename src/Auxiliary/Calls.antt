-- ===== src/Auxiliary/Calls.antt =====
-- One callable and the permits that all of them share, and what a call answers.
use hermes_cashew.Base.{
  ℕ, zero, suc, ◌+◌, ◌-◌, Bool, true, false, not, ◌||◌, List, [], ◌∷◌, Option, String, leb,
  if◌then◌else◌,
}
use hermes_cashew.Base.Value.{Value}
use hermes_cashew.Auxiliary.Role.{raw_role_mapping, message_content}

abbrev pub max_outstanding : ℕ
max_outstanding = 4

-- `_BoundedAuxiliaryModel`, with the flag `finished` of its latest call, and the calls whose
-- `_finish` is past the lock and has still to release the permit.
pub record Callable : Type 0 where
  pub active : Bool
  pub closed : Bool
  pub finished : Bool
  pub leaving : ℕ

abbrev pub new_callable : Callable
new_callable = record { active = false; closed = false; finished = true; leaving = 0 }

-- `_claim_auxiliary_call` and `_release_auxiliary_call` on the number of outstanding calls
unfoldable pub claim_auxiliary_call : ℕ → Bool × ℕ
claim_auxiliary_call n = if leb max_outstanding n then (false, n) else (true, n + 1)

unfoldable pub release_auxiliary_call : ℕ → ℕ
release_auxiliary_call n = n - 1

abbrev pub claimed : Callable → Bool × ℕ → Callable × ℕ
claimed c (true, n) = (record c { active = true; finished = false }, n)
claimed c (false, n) = (c, n)

-- the entry of `__call__`
unfoldable pub enter_call : Callable → ℕ → Callable × ℕ
unfolding claim_auxiliary_call
enter_call c n = if c.closed || c.active then (c, n) else claimed c (claim_auxiliary_call n)

-- `_finish`, which the worker calls at its end, or the caller when no worker could start: what it
-- does under the lock, and the release after it
unfoldable pub finish : Callable → ℕ → Callable × ℕ
finish c n =
    if c.finished
    then (c, n)
    else (record c { finished = true; active = false; leaving = c.leaving + 1 }, n)

unfoldable pub leave : Callable → ℕ → Callable × ℕ
unfolding release_auxiliary_call
leave c n =
    if leb 1 c.leaving
    then (record c { leaving = c.leaving - 1 }, release_auxiliary_call n)
    else (c, n)

unfoldable pub close : Callable → ℕ → Callable × ℕ
close c n = (record c { closed = true }, n)

-- What becomes of the request of a worker: the scope of the profile or the client may fail, or the
-- request; a response has a content or is malformed.
pub data Backend : Type 0 where
  failed no_client : Backend
  responded : Option Value → Backend

-- the text that `_run` leaves in `result`
unfoldable pub run_text : String → Option Value → Backend → String
run_text role profile failed = ""
run_text role profile no_client = ""
run_text role profile (responded content) =
    if raw_role_mapping role profile then message_content content else ""

-- what the call answers: whether it was let in, a worker started, and ended within the deadline
unfoldable pub answer : Bool → Bool → Bool → String → Option Value → Backend → String
unfolding run_text
answer entered started in_time role profile backend =
    if not entered
    then ""
    else if not started
    then ""
    else if not in_time
    then ""
    else run_text role profile backend

-- The callables of a process by their places, with the permits that are out.
pub data Move : Type 0 where
  enters finishes leaves closes : Move

unfoldable pub move : Move → Callable → ℕ → Callable × ℕ
unfolding enter_call finish leave close
move enters = enter_call
move finishes = finish
move leaves = leave
move closes = close

unfoldable pub move_at : ℕ → Move → List Callable → ℕ → List Callable × ℕ
unfolding move
move_at i m [] n = ([], n)
move_at zero m (c ∷ cs) n = let (d, k) = move m c n in (d ∷ cs, k)
move_at (suc i) m (c ∷ cs) n = let (ds, k) = move_at i m cs n in (c ∷ ds, k)

unfoldable pub run : List (ℕ × Move) → List Callable × ℕ → List Callable × ℕ
unfolding move_at
run [] (cs, n) = (cs, n)
run ((i, m) ∷ ms) (cs, n) = run ms (move_at i m cs n)
