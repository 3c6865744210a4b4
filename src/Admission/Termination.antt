-- ===== src/Admission/Termination.antt =====
-- An admission ends: each round that finds a lock taken waits, and the deadline comes.
use hermes_cashew.Base.{
  ℕ, zero, suc, ◌+◌, ◌-◌, ◌<◌, ◌≢◌, List, Option, none, some, if_elim, leb, min, arith, Bool-cases,
  inl, inr, not-leb→lt,
}
use hermes_cashew.Locking.System.{System}
use hermes_cashew.Locking.Lease.{LockError, Entry}
use hermes_cashew.Admission.{OperationAdmission, Request, Owner, new_owner}
use hermes_cashew.Admission.Acquire.{Round, admitted, busy, broke, acquire_round}
use hermes_cashew.Admission.Acquire.Time.{now-acquire_round}
use hermes_cashew.Admission.Operation.{
  Outcome, returned, raises, lock_error, refused, out_of_fuel, State, Result, Body, after_exit,
  run_admitted, settle, admit_rounds, admit_rounds-step, admit_operation, admit_operation_elim,
  poll,
}

-- A body that ends by itself.
pub record Ends (sys : System) {A E : Type 0} (body : Body sys A E) : Type 1 where
  pub ends : (a : OperationAdmission) (o : Owner) (w : sys.World) → (body a o w).0 ≢ out_of_fuel

module _ (sys : System) {A E : Type 0} (body : Body sys A E) (e : Ends sys body) where
  open sys use {World, now, sleep, now_sleep}

  abbrev Over : Result sys A E → Type 0
  Over res = res.outcome ≢ out_of_fuel

  after_exit-Over :
      (o : Outcome A E) (err : Option LockError) → o ≢ out_of_fuel → after_exit o err ≢ out_of_fuel
  after_exit-Over o none h = h
  after_exit-Over (returned a) (some err) h = λ p. cc
  after_exit-Over (raises x) (some err) h = h
  after_exit-Over (lock_error x) (some err) h = h
  after_exit-Over (refused x) (some err) h = h
  after_exit-Over out_of_fuel (some err) h = h

  run_admitted-Over :
      (token : OperationAdmission) (stack : List Entry) (s : State sys)
      → Over (run_admitted sys body token stack s)
  unfolding run_admitted
  run_admitted-Over token stack s =
      let ran = body token new_owner s.world in
      if_elim Over ran.1.transferred (e.ends token new_owner s.world)
        (after_exit-Over ran.0 _ (e.ends token new_owner s.world))

  settle-Over :
      (stop : ℕ) (round : Round) (s : State sys) (again : Result sys A E)
      → (now s.world < stop → Over again)
      → Over (settle sys body stop round s again)
  unfolding settle
  settle-Over stop (admitted token stack) s again h = run_admitted-Over token stack s
  settle-Over stop (broke err) s again h = λ p. cc
  settle-Over stop busy s again h = elim (Bool-cases (leb stop (now s.world))) [
    | inl late ↦ rw late (λ p. cc)
    | inr early ↦ rw early (h (not-leb→lt stop (now s.world) early))
  ]

  -- One round for each millisecond that is left is enough.
  admit_rounds-Over :
      (fuel : ℕ) (r : Request) (stop : ℕ) (s : State sys)
      → stop - now s.world < fuel
      → Over (admit_rounds sys fuel r stop body s)
  admit_rounds-Over zero r stop s h = absurd (omega arith)
  admit_rounds-Over (suc fuel) r stop s h =
      let round = acquire_round sys r s.world in
      rw (admit_rounds-step sys fuel r stop body s) (
        settle-Over stop round.0 (record s { world = round.1 }) _
          (λ early. admit_rounds-Over fuel r stop _ (
            omega (
              arith,
              now-acquire_round sys r s.world,
              now_sleep (min poll (stop - now round.1)) round.1,
            ))))

  -- With more rounds of fuel than the deadline has milliseconds, an admission with a body that
  -- ends does end: each busy round either meets the deadline or waits, and the clock never runs
  -- backwards.
  pub admit_operation-ends :
      (fuel : ℕ) (r : Request) (s : State sys)
      → r.deadline < fuel
      → (admit_operation sys fuel r body s).outcome ≢ out_of_fuel
  admit_operation-ends fuel r s h =
      admit_operation_elim sys Over fuel r body s (λ err p. cc) (λ a o q. e.ends a o s.world)
        (λ q. admit_rounds-Over fuel r (now s.world + r.deadline) s (omega arith))
