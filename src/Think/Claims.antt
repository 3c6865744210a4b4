-- ===== src/Think/Claims.antt =====
-- A claim that did not complete is never repeated, and completed ones come once in an interval.
use hermes_cashew.Base.{
  ℕ, suc, ◌≡◌, refl, ap, ◌∙◌, Bool, true, List, [], ◌∷◌, length, Option, none, some, String, member,
  ◌&&◌, ◌||◌, not, if_elim, if_cases, arith,
}
use hermes_cashew.Base.Int.{ℤ, pos, ltb_ℤ}
use hermes_cashew.Think.{
  Thinker, Thought, progress, idle, fails, dies, Round, Finish, commits, locked, aborts, Event,
  round, recover, or_default, blocks, suc_ℤ, is_row, settle, finish_claim, terminal_of, think,
  claim, count, run_think_cycle_if_due, recover_think_claim, step, run,
}

abbrev pub IsBlocked : Thinker → Type 0
IsBlocked t = blocks (or_default t.think_claim_state "none") ≡ true

module _ (parse : String → Option ℤ) (show : ℤ → String) (interval : ℕ) where
  round_blocked :
      (enabled : Bool) (r : Round) (t : Thinker)
      → IsBlocked t
      → run_think_cycle_if_due parse show interval enabled r t ≡ t
  unfolding run_think_cycle_if_due
  round_blocked enabled r t b =
      if_elim (λ (u : Thinker). u ≡ t) (not enabled || not r.admitted) refl
        (if_cases (λ (u : Thinker). u ≡ t) (blocks (or_default t.think_claim_state "none"))
          (λ _. refl) (λ e. absurd (cc (e, b))))

  recover-IsBlocked :
      (error : Bool) (t : Thinker)
      → IsBlocked t
      → IsBlocked (recover_think_claim parse show interval error t)
        × ((recover_think_claim parse show interval error t).calls ≡ t.calls)
  unfolding recover_think_claim blocks member or_default
  recover-IsBlocked error t b =
      if_elim (λ (u : Thinker). IsBlocked u × (u.calls ≡ t.calls))
        (is_row t.think_claim_state "in_flight" && not error) (refl, refl) (b, refl)

  pub calls-run-IsBlocked :
      (enabled : Bool) (events : List Event) (t : Thinker)
      → IsBlocked t
      → (run parse show interval enabled events t).calls ≡ t.calls
  unfolding run step
  calls-run-IsBlocked enabled [] t b = refl
  calls-run-IsBlocked enabled (round r ∷ events) t b =
      let same = round_blocked enabled r t b in
      ap (λ u. (run parse show interval enabled events u).calls) same
      ∙ calls-run-IsBlocked enabled events t b
  calls-run-IsBlocked enabled (recover error ∷ events) t b =
      let (b', same) = recover-IsBlocked error t b in
      calls-run-IsBlocked enabled events (recover_think_claim parse show interval error t) b' ∙ same

  -- what a round that makes its call leaves, if it does not complete
  Stops : Thinker → Thinker → Type 0
  Stops t u = length u.calls ≡ suc (length t.calls) → IsBlocked u

  Stops-stays : (t u : Thinker) → u.calls ≡ t.calls → Stops t u
  unfolding Stops
  Stops-stays t u same = λ h. absurd (omega (arith, ap length same, h))

  settle-IsBlocked :
      (epoch : String) (counter : ℤ) (terminal : String) (t : Thinker)
      → IsBlocked t
      → blocks terminal ≡ true
      → IsBlocked (settle parse show interval epoch counter terminal t)
  unfolding settle or_default
  settle-IsBlocked epoch counter terminal t b h =
      if_elim IsBlocked (is_row t.think_claim_epoch epoch && is_row t.think_claim_state "in_flight")
        h b

  finish-IsBlocked :
      (f : Finish) (epoch : String) (counter : ℤ) (terminal : String) (t : Thinker)
      → IsBlocked t
      → blocks terminal ≡ true
      → IsBlocked (finish_claim parse show interval f epoch counter terminal t)
  unfolding finish_claim
  finish-IsBlocked commits epoch counter terminal t b h =
      settle-IsBlocked epoch counter terminal t b h
  finish-IsBlocked locked epoch counter terminal t b h = b
  finish-IsBlocked aborts epoch counter terminal t b h = b

  open_claim-IsBlocked :
      (f : Finish) (epoch : String) (counter : ℤ) (terminal : String) (t : Thinker)
      → ¬ (f ≡ commits)
      → IsBlocked t
      → IsBlocked (finish_claim parse show interval f epoch counter terminal t)
  unfolding finish_claim
  open_claim-IsBlocked commits epoch counter terminal t h b = absurd (h refl)
  open_claim-IsBlocked locked epoch counter terminal t h b = b
  open_claim-IsBlocked aborts epoch counter terminal t h b = b

  think-IsBlocked :
      (o : Thought) (r : Round) (counter : ℤ) (t : Thinker)
      → (o ≡ progress → ¬ (r.finish ≡ commits))
      → t.think_claim_state ≡ some "in_flight"
      → IsBlocked (think parse show interval o r counter t)
  unfolding think terminal_of blocks member or_default
  think-IsBlocked dies r counter t h e = rw e refl
  think-IsBlocked progress r counter t h e =
      open_claim-IsBlocked r.finish r.epoch counter "completed" _ (h refl) (rw e refl)
  think-IsBlocked idle r counter t h e =
      finish-IsBlocked r.finish r.epoch counter "failed" _ (rw e refl) refl
  think-IsBlocked fails r counter t h e =
      finish-IsBlocked r.finish r.epoch counter "uncertain" _ (rw e refl) refl

  claim-Stops :
      (r : Round) (counter : ℤ) (t : Thinker)
      → (r.thought ≡ progress → ¬ (r.finish ≡ commits))
      → Stops t (claim parse show interval r counter t)
  unfolding claim Stops
  claim-Stops r counter t h =
      if_elim (Stops t) r.claim_error (Stops-stays t (record t { claim_state = "in_flight" }) refl)
        (λ _.
          think-IsBlocked r.thought r counter
            (record t {
              think_counter = some (show counter);
              think_claim_epoch = some r.epoch;
              think_claim_state = some "in_flight";
              claim_state = "in_flight";
            })
            h refl)

  count-Stops :
      (r : Round) (o : Option ℤ) (t : Thinker)
      → (r.thought ≡ progress → ¬ (r.finish ≡ commits))
      → Stops t (count parse show interval r o t)
  unfolding count
  count-Stops r none t h =
      if_elim (Stops t) r.claim_error (Stops-stays t _ refl) (Stops-stays t _ refl)
  count-Stops r (some z) t h =
      if_elim (Stops t) (ltb_ℤ (suc_ℤ z) (pos interval))
        (if_elim (Stops t) r.claim_error (Stops-stays t _ refl) (Stops-stays t _ refl))
        (claim-Stops r (suc_ℤ z) t h)

  round-Stops :
      (enabled : Bool) (r : Round) (t : Thinker)
      → (r.thought ≡ progress → ¬ (r.finish ≡ commits))
      → Stops t (run_think_cycle_if_due parse show interval enabled r t)
  unfolding run_think_cycle_if_due
  round-Stops enabled r t h =
      if_elim (Stops t) (not enabled || not r.admitted) (Stops-stays t _ refl) (
        if_elim (Stops t) (blocks (or_default t.think_claim_state "none")) (Stops-stays t _ refl)
          (count-Stops r (parse (or_default t.think_counter "0")) t h))

  -- Once a round has made its think call, and the call was not a success whose result was stored,
  -- no later sequence of rounds and of starts of the provider makes another call.
  pub calls-run-unfinished :
      (enabled : Bool) (r : Round) (events : List Event) (t : Thinker)
      → (r.thought ≡ progress → ¬ (r.finish ≡ commits))
      → length (run_think_cycle_if_due parse show interval enabled r t).calls ≡ suc (length t.calls)
      → (run parse show interval enabled events
          (run_think_cycle_if_due parse show interval enabled r t)).calls
        ≡ (run_think_cycle_if_due parse show interval enabled r t).calls
  unfolding Stops
  calls-run-unfinished enabled r events t h called =
      calls-run-IsBlocked enabled events _ (round-Stops enabled r t h called)
