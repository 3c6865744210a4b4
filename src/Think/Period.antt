-- ===== src/Think/Period.antt =====
-- While every call makes progress, there is one call in each interval of rounds.
use hermes_cashew.Base.{
  ℕ, suc, ◌+◌, ◌-◌, ◌*◌, ◌≤◌, ◌<◌, ◌≡◌, refl, sym, ap, subst, ◌∙◌, true, false, List, [], ◌∷◌, ◌++◌,
  length, length-append, Option, some, String, str_eq_refl, member, ltb, ltb→lt, not-ltb→le, ◌&&◌,
  not, if_cases, Bool-cases, inl, inr, All, arith,
}
use hermes_cashew.Base.Int.{ℤ, pos}
use hermes_cashew.Think.{
  Thinker, Thought, progress, Round, Finish, commits, Event, round, recover, or_default, blocks,
  is_row, settle, finish_claim, terminal_of, think, claim, count, run_think_cycle_if_due, step, run,
}

-- a round that is admitted, whose transactions succeed and whose call finds something
abbrev pub IsGood : Event → Type 0
IsGood (round r) =
    (r.admitted ≡ true) × (r.claim_error ≡ false) × (r.thought ≡ progress) × (r.finish ≡ commits)
IsGood (recover error) = ⊥

-- the counter stands at `k`, and nothing blocks the next claim
pub record Stands (show : ℤ → String) (k : ℕ) (t : Thinker) : Type 0 where
  pub at : t.think_counter ≡ some (show (pos k))
  pub free : blocks (or_default t.think_claim_state "none") ≡ false

module _ (parse : String → Option ℤ) (show : ℤ → String) (interval : ℕ)
    (parse-show : (n : ℕ) → parse (show (pos n)) ≡ some (pos n)) where
  or_default_show : (text : String) → parse (or_default (some text) "0") ≡ parse text
  unfolding or_default
  or_default_show text = refl

  -- the counter after a claim that completes, and its call
  Completes : ℕ → Round → Thinker → Thinker → Type 0
  Completes k r t u = Stands show (k - interval) u × (u.calls ≡ t.calls ++ (r.epoch ∷ []))

  finish_good :
      (f : Finish) (epoch : String) (k : ℕ) (t : Thinker)
      → f ≡ commits
      → t.think_counter ≡ some (show (pos k))
      → t.think_claim_epoch ≡ some epoch
      → t.think_claim_state ≡ some "in_flight"
      → Stands show (k - interval) (finish_claim parse show interval f epoch (pos k) "completed" t)
        × ((finish_claim parse show interval f epoch (pos k) "completed" t).calls ≡ t.calls)
  unfolding finish_claim settle is_row or_default blocks member
  finish_good commits epoch k t e c i s =
      let same = subst (λ (o : Option String). is_row o epoch ≡ true) (sym i) (str_eq_refl epoch) in
      let held = subst (λ (o : Option String). is_row o "in_flight" ≡ true) (sym s) refl in
      if_cases (λ (u : Thinker). Stands show (k - interval) u × (u.calls ≡ t.calls))
        (is_row t.think_claim_epoch epoch && is_row t.think_claim_state "in_flight")
        (λ _. (record { at = rw c refl; free = refl }, refl)) (λ g. absurd (ground arith))
  finish_good Finish.locked epoch k t e c i s = absurd (cc e)
  finish_good Finish.aborts epoch k t e c i s = absurd (cc e)

  think_good :
      (o : Thought) (r : Round) (k : ℕ) (t : Thinker)
      → o ≡ progress
      → r.finish ≡ commits
      → Completes k r t (
          think parse show interval o r (pos k) (record t {
            think_counter = some (show (pos k));
            think_claim_epoch = some r.epoch;
            think_claim_state = some "in_flight";
            claim_state = "in_flight";
          }))
  unfolding Completes think settle terminal_of is_row or_default blocks member
  think_good progress r k t e f =
      finish_good r.finish r.epoch k
        (record t {
          think_counter = some (show (pos k));
          think_claim_epoch = some r.epoch;
          think_claim_state = some "in_flight";
          claim_state = "in_flight";
          calls = t.calls ++ (r.epoch ∷ []);
        })
        f refl refl refl
  think_good Thought.idle r k t e f = absurd (cc e)
  think_good Thought.fails r k t e f = absurd (cc e)
  think_good Thought.dies r k t e f = absurd (cc e)

  claim_good :
      (r : Round) (k : ℕ) (t : Thinker)
      → IsGood (round r)
      → Completes k r t (claim parse show interval r (pos k) t)
  unfolding claim
  claim_good r k t (a, c, p, f) =
      if_cases (Completes k r t) r.claim_error (λ e. absurd (cc (e, c)))
        (λ _. think_good r.thought r k t p f)

  count_below :
      (r : Round) (k : ℕ) (t : Thinker)
      → IsGood (round r)
      → Stands show k t
      → suc k < interval
      → Stands show (suc k) (count parse show interval r (some (pos k)) t)
        × ((count parse show interval r (some (pos k)) t).calls ≡ t.calls)
  unfolding count
  count_below r k t (a, c, p, f) s h =
      if_cases (λ (u : Thinker). Stands show (suc k) u × (u.calls ≡ t.calls)) (ltb (suc k) interval)
        (λ _.
          if_cases (λ (u : Thinker). Stands show (suc k) u × (u.calls ≡ t.calls)) r.claim_error
            (λ e. absurd (cc (e, c))) (λ _. (record { at = refl; free = s.free }, refl)))
        (λ e. absurd (omega (arith, not-ltb→le _ _ e)))

  count_due :
      (r : Round) (k : ℕ) (t : Thinker)
      → IsGood (round r)
      → interval ≤ suc k
      → Completes (suc k) r t (count parse show interval r (some (pos k)) t)
  unfolding count
  count_due r k t g h =
      if_cases (Completes (suc k) r t) (ltb (suc k) interval)
        (λ e. absurd (omega (arith, ltb→lt _ _ e))) (λ _. claim_good r (suc k) t g)

  round_counts :
      (r : Round) (k : ℕ) (t : Thinker)
      → IsGood (round r)
      → Stands show k t
      → run_think_cycle_if_due parse show interval true r t
        ≡ count parse show interval r (some (pos k)) t
  unfolding run_think_cycle_if_due
  round_counts r k t (a, c, p, f) s =
      let counted = count parse show interval r (some (pos k)) t in
      if_cases (λ (u : Thinker). u ≡ counted) (not r.admitted) (λ e. absurd (ground arith))
        (λ _.
          if_cases (λ (u : Thinker). u ≡ counted) (blocks (or_default t.think_claim_state "none"))
            (λ e. absurd (cc (e, s.free)))
            (λ _.
              ap (λ (o : Option String). count parse show interval r (parse (or_default o "0")) t)
                s.at
              ∙ ap (λ o. count parse show interval r o t)
                  (or_default_show (show (pos k)) ∙ parse-show k)))

  one_more :
      (xs : List String) (x : String)
      → length (xs ++ (x ∷ [])) * interval ≡ length xs * interval + interval
  one_more xs x = ap (λ n. n * interval) (length-append xs (x ∷ [])) ∙ grind arith

  -- the end of a run of one more event than `events`, from the counter `k`
  abbrev Ends : List Event → ℕ → Thinker → Thinker → Type 0
  Ends events k t u =
      (m : ℕ) × Stands show m (run parse show interval true events u)
      × (m < interval)
      × (length (run parse show interval true events u).calls * interval + m
          ≡ length t.calls * interval + (k + suc (length events)))

  -- Let the counter stand at k below the interval, unblocked, let int read what str writes of a
  -- natural number, and let each of n rounds be admitted, make progress in its call if it makes
  -- one, and commit. Then the calls made are (k + n) divided by the interval, the counter stands
  -- at the remainder, and nothing blocks the next round.
  pub calls-run-good :
      (events : List Event) (k : ℕ) (t : Thinker)
      → All IsGood events
      → Stands show k t
      → k < interval
      → (m : ℕ) × Stands show m (run parse show interval true events t)
        × (m < interval)
        × (length (run parse show interval true events t).calls * interval + m
            ≡ length t.calls * interval + (k + length events))
  unfolding run step Completes
  calls-run-good [] k t g s h = (k, s, h, omega arith)
  calls-run-good (recover error ∷ events) k t g s h = absurd g.0
  calls-run-good (round r ∷ events) k t g s h = elim (Bool-cases (ltb (suc k) interval)) [
    | inl e ↦
        let same = round_counts r k t g.0 s in
        let (s', c) = count_below r k t g.0 s (ltb→lt _ _ e) in
        let (m, st, lt, eq) = calls-run-good events (suc k) _ g.1 s' (ltb→lt _ _ e) in
        subst (Ends events k t) (sym same)
          (m, st, lt, omega (arith, ap (λ xs. length xs * interval) c, eq))
    | inr e ↦
        let same = round_counts r k t g.0 s in
        let due = count_due r k t g.0 (not-ltb→le _ _ e) in
        let (m, st, lt, eq) =
          calls-run-good events (suc k - interval) _ g.1 due.0
            (omega (arith, not-ltb→le _ _ e, h)) in
        subst (Ends events k t) (sym same) (
          m,
          st,
          lt,
          omega (
            arith,
            ap (λ xs. length xs * interval) due.1,
            one_more t.calls r.epoch,
            eq,
            not-ltb→le _ _ e,
            h,
          ),
        )
  ]
