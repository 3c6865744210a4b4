-- ===== src/Embedding/Lifecycle.antt =====
-- The life of a supervisor as its users see it: it serves, it is closing, it is over, it has told of
-- its end. Users are other supervisors, which want the slot, and callbacks.
use hermes_cashew.Base.{
  ℕ, ◌≡◌, refl, sym, ap, ◌∙◌, Bool, true, false, List, [], ◌∷◌, ◌++◌, none, String, inl, inr, arith,
}
use hermes_cashew.Embedding.Supervisor.{Ending, Supervisor, new_supervisor, claim_owner, split_at}
use hermes_cashew.Embedding.Steps.{
  Event, acquire, proceed, spawn, greet, exchange, begin_close, close, close_busy, close_terminates,
  close_delegates, finish_close, unmarked, checked, looked, cleared, resumed, tested, released,
  taken, called_back, called_directly, register, claimed, other_released, step, run,
}
use hermes_cashew.Embedding.Unchanged.{
  Same-acquire_in, Same-proceed_in, Same-spawn_in, Same-greet_in, Same-exchange_in,
}
use hermes_cashew.Embedding.Sound.{is_itself, occurrences, IsAccounted, Goes, Goes-Same}
use hermes_cashew.Embedding.Ownership.{
  Goes-begin_closing, Goes-unmark, Goes-close_busy_in, Goes-release_owner, Goes-claimed_in,
  Goes-other_released_in,
}
use hermes_cashew.Embedding.Callbacks.{
  Goes-take_callbacks, Goes-run_callback, Goes-run_direct, Goes-when_closed,
}
use hermes_cashew.Embedding.Closing.{
  Goes-clear, Goes-resume, Goes-test_closed, Goes-look, Goes-check_gone, Goes-close_in,
  Goes-terminate_unlocked, Goes-delegate, Goes-finish_close_in,
}

-- the callbacks after an event
abbrev pub noted : List ℕ → Event → List ℕ
noted rs (register n) = rs ++ (n ∷ [])
noted rs event = rs

-- the callbacks that a sequence of events registers, after `rs`
unfoldable pub registered : List ℕ → List Event → List ℕ
registered rs [] = rs
registered rs (event ∷ events) = registered (noted rs event) events

pub data Stage : Type 0 where
  serving closing over told : Stage

abbrev pub stage_of : Bool → Bool → Bool → Stage
stage_of true false was_told = serving
stage_of true true was_told = Stage.closing
stage_of false closed false = over
stage_of false closed true = told

-- the abstract state
abbrev pub view : Ending → Stage
view e = stage_of (is_itself e.owner) e.closed e.owner_released

-- the abstract machine, which never goes back
pub data Moves : Stage → Stage → Type 0 where
  closes : Moves serving Stage.closing
  ends : Moves Stage.closing over
  tells : Moves over told

pub data Walk : Stage → Stage → Type 0 where
  here : {u : Stage} → Walk u u
  next : {u v w : Stage} → Moves u v → Walk v w → Walk u w

pub new-IsAccounted :
    (device : String) (dimension : ℕ) → IsAccounted [] (new_supervisor device dimension).ending
unfolding new_supervisor occurrences
new-IsAccounted device dimension = record {
  safe = inr ([], refl);
  told = λ _. (refl, refl);
  counted = λ n. omega arith;
  silent = λ _. (refl, refl, refl);
  none_waits = λ t. refl;
}

module _ (generation model : String) (backoff_base : ℕ) (is_finite : List ℕ → Bool) where
  Goes-step :
      (rs : List ℕ) (event : Event) (s : Supervisor)
      → Goes rs
          (noted rs event)
          s.ending
          (step generation model backoff_base is_finite event s).ending
  unfolding step
  Goes-step rs (acquire job) s =
      Goes-Same rs (Same-acquire_in generation model backoff_base is_finite s.phase job s)
  Goes-step rs (proceed now) s =
      Goes-Same rs (Same-proceed_in generation model backoff_base is_finite s.phase now s)
  Goes-step rs (spawn pid t now) s =
      Goes-Same rs (Same-spawn_in generation model backoff_base is_finite s.phase pid t now s)
  Goes-step rs (greet r t now) s =
      Goes-Same rs (Same-greet_in generation model backoff_base is_finite s.phase r t now s)
  Goes-step rs (exchange r t now) s =
      Goes-Same rs (Same-exchange_in generation model backoff_base is_finite s.phase r t now s)
  Goes-step rs begin_close s = Goes-begin_closing rs s.ending
  Goes-step rs (close t) s = Goes-close_in rs s.phase t s
  Goes-step rs close_busy s = Goes-close_busy_in rs s.phase s.ending
  Goes-step rs (close_terminates t) s = Goes-terminate_unlocked rs t s
  Goes-step rs (close_delegates can_start t) s = Goes-delegate rs can_start t s
  Goes-step rs (finish_close t) s = Goes-finish_close_in rs s.phase t s
  Goes-step rs unmarked s = Goes-unmark rs s.ending
  Goes-step rs checked s = Goes-check_gone rs s
  Goes-step rs looked s = Goes-look rs s
  Goes-step rs cleared s = Goes-clear rs s
  Goes-step rs resumed s = Goes-resume rs s
  Goes-step rs tested s = Goes-test_closed rs s
  Goes-step rs released s = Goes-release_owner rs s.ending
  Goes-step rs taken s = Goes-take_callbacks rs s.ending
  Goes-step rs called_back s = Goes-run_callback rs s.ending.running s.ending refl
  Goes-step rs (called_directly i) s =
      Goes-run_direct rs i (split_at i s.ending.direct) s.ending refl
  Goes-step rs (register n) s = Goes-when_closed rs n s.ending
  Goes-step rs claimed s = Goes-claimed_in rs s.ending.owner s.ending refl
  Goes-step rs other_released s = Goes-other_released_in rs s.ending.owner s.ending refl

  -- Any sequence of events keeps the invariant, for the callbacks that were registered meanwhile
  -- too: a supervisor that was not closed is the owner; while it is the owner it has announced
  -- nothing; before the announcement no callback is run or taken, and after it none waits to be
  -- taken; each callback ran, is about to run, or waits, all together as often as it was
  -- registered.
  pub run-IsAccounted :
      (events : List Event) (rs : List ℕ) (s : Supervisor)
      → IsAccounted rs s.ending
      → IsAccounted
          (registered rs events)
          (run generation model backoff_base is_finite events s).ending
  unfolding run registered
  run-IsAccounted [] rs s v = v
  run-IsAccounted (event ∷ events) rs s v =
      run-IsAccounted events (noted rs event) (step generation model backoff_base is_finite event s)
        ((Goes-step rs event s).sound v)

  -- For a supervisor on any device, after any sequence of events of requests, of close, of its
  -- threads, of reapers and of other supervisors: as long as it is not marked closed, no other
  -- supervisor can claim the slot.
  pub claim_owner-run :
      (device : String) (dimension : ℕ) (events : List Event)
      → let s =
          run generation model backoff_base is_finite events (new_supervisor device dimension) in
        s.ending.closed ≡ false → claim_owner s.ending.owner ≡ none
  claim_owner-run device dimension events open_ =
      let s =
        run generation model backoff_base is_finite events (new_supervisor device dimension) in
      elim (run-IsAccounted events [] (new_supervisor device dimension)
        (new-IsAccounted device dimension)).safe [
          | inl c ↦ absurd (cc (sym open_ ∙ c))
          | inr (cs, f) ↦ unfold claim_owner in ap (λ (e : Ending). claim_owner e.owner) f
        ]
