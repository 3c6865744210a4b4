-- ===== src/Embedding/Closing.antt =====
-- The steps of reapers, of requests after their lock and of `close`, on a supervisor.
use hermes_cashew.Base.{
  ℕ, ◌+◌, ◌-◌, ◌≡◌, refl, sym, ap, ◌∙◌, Bool, true, List, is_some, leb, ◌&&◌, not, if_elim,
  if_cases, inl, inr,
}
use hermes_cashew.Embedding.Supervisor.{
  Phase, unlocked, Ending, Supervisor, Teardown, clear, resume, to_release, test_closed, look,
  check_gone,
}
use hermes_cashew.Embedding.Steps.{
  close_in, terminate_unlocked, close_here, delegate, finish_close_in,
}
use hermes_cashew.Embedding.Sound.{IsAccounted, Goes, Goes-refl, Goes-Alike, Goes-threads}

pub Goes-clear : (rs : List ℕ) (s : Supervisor) → Goes rs rs s.ending (clear s).ending
unfolding clear
Goes-clear rs s =
    if_elim (λ (t : Supervisor). Goes rs rs s.ending t.ending) (leb 1 s.waiting)
      (Goes-refl rs s.ending) (Goes-refl rs s.ending)

pub Goes-resume : (rs : List ℕ) (s : Supervisor) → Goes rs rs s.ending (resume s).ending
unfolding resume
Goes-resume rs s =
    if_elim (λ (t : Supervisor). Goes rs rs s.ending t.ending) (leb 1 s.resuming)
      (Goes-refl rs s.ending) (Goes-refl rs s.ending)

pub Goes-test_closed : (rs : List ℕ) (s : Supervisor) → Goes rs rs s.ending (test_closed s).ending
unfolding test_closed
Goes-test_closed rs s =
    if_elim (λ (t : Supervisor). Goes rs rs s.ending t.ending) (leb 1 s.testing)
      (if_cases (λ (t : Supervisor). Goes rs rs s.ending t.ending) s.ending.closed
        (λ h.
          Goes-Alike rs s.ending (to_release s.ending) (refl, refl, refl, refl, refl, refl, refl)
            (λ c. c) (λ _. h))
        (λ _. Goes-refl rs s.ending))
      (Goes-refl rs s.ending)

waiting-closed :
    (rs : List ℕ) (e : Ending) → e.close_waiting ≡ true → IsAccounted rs e → e.closed ≡ true
waiting-closed rs e h v = elim v.safe [
  | inl c ↦ c
  | inr (cs, f) ↦ absurd (cc (sym h ∙ ap (λ x. x.close_waiting) f))
]

pub Goes-look : (rs : List ℕ) (s : Supervisor) → Goes rs rs s.ending (look s).ending
unfolding look
Goes-look rs s =
    if_elim (λ (t : Supervisor). Goes rs rs s.ending t.ending) (leb 1 s.looking)
      (if_cases (λ (t : Supervisor). Goes rs rs s.ending t.ending) s.ending.close_waiting
        (λ h.
          Goes-Alike rs s.ending (record s.ending { finishing = s.ending.finishing + 1 })
            (refl, refl, refl, refl, refl, refl, refl) (λ c. c) (waiting-closed rs s.ending h))
        (λ _. Goes-refl rs s.ending))
      (Goes-refl rs s.ending)

pub Goes-check_gone : (rs : List ℕ) (s : Supervisor) → Goes rs rs s.ending (check_gone s).ending
unfolding check_gone
Goes-check_gone rs s =
    if_cases (λ (t : Supervisor). Goes rs rs s.ending t.ending) (leb 1 s.ending.checking)
      (λ h.
        if_elim (Goes rs rs s.ending) (not s.reaping && not (is_some s.process))
          (Goes-threads rs (λ x. x.checking) s.ending _ (λ cs. refl) h
            (refl, refl, refl, refl, refl, refl, refl) refl)
          (Goes-threads rs (λ x. x.checking) s.ending _ (λ cs. refl) h
            (refl, refl, refl, refl, refl, refl, refl) refl))
      (λ _. Goes-refl rs s.ending)

pub Goes-close_in :
    (rs : List ℕ) (p : Phase) (t : Teardown) (s : Supervisor)
    → Goes rs rs s.ending (close_in p t s).ending
unfolding close_in
Goes-close_in rs unlocked t s =
    if_cases (λ (u : Supervisor). Goes rs rs s.ending u.ending) (leb 1 s.ending.closing)
      (λ h.
        Goes-threads rs (λ x. x.closing) s.ending _ (λ cs. refl) h
          (refl, refl, refl, refl, refl, refl, refl) refl)
      (λ _. Goes-refl rs s.ending)
Goes-close_in rs p t s = Goes-refl rs s.ending

pub Goes-terminate_unlocked :
    (rs : List ℕ) (t : Teardown) (s : Supervisor)
    → Goes rs rs s.ending (terminate_unlocked t s).ending
unfolding terminate_unlocked
Goes-terminate_unlocked rs t s =
    if_cases (λ (u : Supervisor). Goes rs rs s.ending u.ending) (leb 1 s.ending.marking)
      (λ h.
        Goes-threads rs (λ x. x.marking) s.ending _ (λ cs. refl) h
          (refl, refl, refl, refl, refl, refl, refl) refl)
      (λ _. Goes-refl rs s.ending)

Goes-close_here :
    (rs : List ℕ) (p : Phase) (t : Teardown) (s : Supervisor)
    → leb 1 s.ending.delegating ≡ true
    → Goes rs rs s.ending
        (close_here p t (record s.ending { delegating = s.ending.delegating - 1 }) s).ending
unfolding close_here
Goes-close_here rs unlocked t s h =
    Goes-threads rs (λ x. x.delegating) s.ending _ (λ cs. refl) h
      (refl, refl, refl, refl, refl, refl, refl) refl
Goes-close_here rs p t s h =
    Goes-threads rs (λ x. x.delegating) s.ending _ (λ cs. refl) h
      (refl, refl, refl, refl, refl, refl, refl) refl

pub Goes-delegate :
    (rs : List ℕ) (can_start : Bool) (t : Teardown) (s : Supervisor)
    → Goes rs rs s.ending (delegate can_start t s).ending
unfolding delegate
Goes-delegate rs can_start t s =
    if_cases (λ (u : Supervisor). Goes rs rs s.ending u.ending) (leb 1 s.ending.delegating)
      (λ h.
        if_elim (λ (u : Supervisor). Goes rs rs s.ending u.ending) can_start
          (Goes-threads rs (λ x. x.delegating) s.ending _ (λ cs. refl) h
            (refl, refl, refl, refl, refl, refl, refl) refl)
          (Goes-close_here rs s.phase t s h))
      (λ _. Goes-refl rs s.ending)

pub Goes-finish_close_in :
    (rs : List ℕ) (p : Phase) (t : Teardown) (s : Supervisor)
    → Goes rs rs s.ending (finish_close_in p t s).ending
unfolding finish_close_in
Goes-finish_close_in rs unlocked t s =
    if_cases (λ (u : Supervisor). Goes rs rs s.ending u.ending) (leb 1 s.ending.finishing)
      (λ h.
        Goes-threads rs (λ x. x.finishing) s.ending _ (λ cs. refl) h
          (refl, refl, refl, refl, refl, refl, refl) refl)
      (λ _. Goes-refl rs s.ending)
Goes-finish_close_in rs p t s = Goes-refl rs s.ending
