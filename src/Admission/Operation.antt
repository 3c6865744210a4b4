-- ===== src/Admission/Operation.antt =====
-- `admit_operation` as a whole: the reuse of an admission in force, the rounds up to the deadline,
-- the body of the `with` statement, and the exits.
use hermes_cashew.Base.{
  ℕ, zero, suc, ◌+◌, ◌-◌, ◌≡◌, refl, Bool, true, false, not, List, [], Option, none, some, leb, min,
  if◌then◌else◌,
}
use hermes_cashew.Locking.System.{System}
use hermes_cashew.Locking.Lease.{LockError, Entry}
use hermes_cashew.Admission.{
  OperationAdmission, Request, AdmissionError, deadline_exceeded, Owner, new_owner,
}
use hermes_cashew.Admission.Nested.{identity_error, nested_error}
use hermes_cashew.Admission.Acquire.{Round, admitted, busy, broke, close_stack, acquire_round}

-- How an operation ends: with a value, an exception of its own, an error of the locks, or one of
-- the admission. Only a run that is short of fuel does not end.
pub data Outcome {ℓ} (A E : Type ℓ) : Type ℓ where
  returned : A → Outcome A E
  raises : E → Outcome A E
  lock_error : LockError → Outcome A E
  refused : AdmissionError → Outcome A E
  out_of_fuel : Outcome A E

abbrev pub has_returned {ℓ} : {A E : Type ℓ} → Outcome A E → Bool
has_returned (returned a) = true
has_returned (raises e) = false
has_returned (lock_error e) = false
has_returned (refused e) = false
has_returned out_of_fuel = false

abbrev pub poll : ℕ
poll = 10

module _ (sys : System) where
  open sys use {World}

  -- the world, and the context variable `_CURRENT`: the admission in force with its owner
  pub record State : Type 0 where
    pub world : World
    pub current : Option (OperationAdmission × Owner)

  -- What comes out: the outcome, the state, and the entries whose exit another owner has.
  pub record Result (A E : Type 0) : Type 0 where
    pub outcome : Outcome A E
    pub state : State
    pub kept : List Entry

  -- The body sees the admission in force, and may mark its owner as transferred.
  abbrev pub Body : Type 0 → Type 0 → Type 0
  Body A E = OperationAdmission → Owner → World → Outcome A E × Owner × World

  -- `owner.close()`, which does nothing a second time
  unfoldable pub close_owner : Bool → Owner → List Entry → World → Option LockError × World
  close_owner handling o es w = if o.closed then (none, w) else close_stack sys handling es w

-- An error of the exits comes out of an operation that has returned; an exception is kept.
abbrev pub after_exit : {A E : Type 0} → Outcome A E → Option LockError → Outcome A E
after_exit o none = o
after_exit o (some err) = if has_returned o then lock_error err else o

module _ (sys : System) {A E : Type 0} where
  open sys use {World, now, sleep}

  unfoldable pub run_admitted :
      Body sys A E → OperationAdmission → List Entry → State sys → Result sys A E
  run_admitted body token stack s =
      let ran = body token new_owner s.world in
      let out = close_owner sys (not (has_returned ran.0)) ran.1 stack ran.2 in
      if ran.1.transferred
      then record { outcome = ran.0; state = record s { world = ran.2 }; kept = stack }
      else record {
        outcome = after_exit ran.0 out.0;
        state = record s { world = out.1 };
        kept = [];
      }

  abbrev pub ended : Outcome A E → State sys → Result sys A E
  ended o s = record { outcome = o; state = s; kept = [] }

  -- What follows a round; `again` is the rest of the loop.
  unfoldable pub settle : Body sys A E → ℕ → Round → State sys → Result sys A E → Result sys A E
  settle body stop (admitted token stack) s again = run_admitted body token stack s
  settle body stop (broke err) s again = ended (lock_error err) s
  settle body stop busy s again =
      if leb stop (now s.world) then ended (refused deadline_exceeded) s else again

  -- The loop. A round that finds a lock taken is followed by the test of the deadline and a wait
  -- of at most 10 milliseconds.
  unfoldable pub admit_rounds : ℕ → Request → ℕ → Body sys A E → State sys → Result sys A E
  unfolding settle
  admit_rounds zero r stop body s = ended out_of_fuel s
  admit_rounds (suc fuel) r stop body s =
      let round = acquire_round sys r s.world in
      let t = now round.1 in
      let again =
        admit_rounds fuel r stop body (record s { world = sleep (min poll (stop - t)) round.1 }) in
      settle body stop round.0 (record s { world = round.1 }) again

  -- one step of the loop
  pub admit_rounds-step :
      (fuel : ℕ) (r : Request) (stop : ℕ) (body : Body sys A E) (s : State sys)
      → let round = acquire_round sys r s.world in
        admit_rounds (suc fuel) r stop body s
        ≡ settle body stop round.0
            (record s { world = round.1 })
            (admit_rounds fuel r stop body
              (record s { world = sleep (min poll (stop - now round.1)) round.1 }))
  unfolding admit_rounds
  admit_rounds-step fuel r stop body s = refl

  -- a guard in front of `res`
  abbrev guarded : Option AdmissionError → State sys → Result sys A E → Result sys A E
  guarded none s res = res
  guarded (some err) s res = ended (refused err) s

  -- Under an admission in force the body runs with that token; no lock is touched.
  nested : OperationAdmission → Owner → Request → Body sys A E → State sys → Result sys A E
  nested parent owner r body s =
      let ran = body parent owner s.world in
      let res = ended ran.0 (record { world = ran.2; current = some (parent, ran.1) }) in
      guarded (nested_error parent r) s res

  admit :
      ℕ → Request → Body sys A E → Option (OperationAdmission × Owner) → State sys → Result sys A E
  admit fuel r body none s = admit_rounds fuel r (now s.world + r.deadline) body s
  admit fuel r body (some (parent, owner)) s = nested parent owner r body s

  unfoldable pub admit_operation : ℕ → Request → Body sys A E → State sys → Result sys A E
  unfolding admit nested
  admit_operation fuel r body s =
      let res = admit fuel r body s.current s in guarded (identity_error r) s res

  guarded_elim :
      (P : Result sys A E → Type 0) (o : Option AdmissionError) (s : State sys)
      (res : Result sys A E)
      → ((err : AdmissionError) → P (ended (refused err) s))
      → P res
      → P (guarded o s res)
  guarded_elim P none s res p q = q
  guarded_elim P (some err) s res p q = p err

  admit_elim :
      (P : Result sys A E → Type 0) (fuel : ℕ) (r : Request) (body : Body sys A E)
      (current : Option (OperationAdmission × Owner)) (s : State sys)
      → ((err : AdmissionError) → P (ended (refused err) s))
      → ((a : OperationAdmission) (o : Owner)
          → current ≡ some (a, o)
          → let ran = body a o s.world in
            P (ended ran.0 (record { world = ran.2; current = some (a, ran.1) })))
      → (current ≡ none → P (admit_rounds fuel r (now s.world + r.deadline) body s))
      → P (admit fuel r body current s)
  unfolding admit nested
  admit_elim P fuel r body none s refusal inner outer = outer refl
  admit_elim P fuel r body (some (a, o)) s refusal inner outer =
      guarded_elim P (nested_error a r) s _ refusal (inner a o refl)

  -- What holds of a refusal, of a run under an admission in force, and of a run of the loop, holds
  -- of an admission.
  pub admit_operation_elim :
      (P : Result sys A E → Type 0) (fuel : ℕ) (r : Request) (body : Body sys A E) (s : State sys)
      → ((err : AdmissionError) → P (ended (refused err) s))
      → ((a : OperationAdmission) (o : Owner)
          → s.current ≡ some (a, o)
          → let ran = body a o s.world in
            P (ended ran.0 (record { world = ran.2; current = some (a, ran.1) })))
      → (s.current ≡ none → P (admit_rounds fuel r (now s.world + r.deadline) body s))
      → P (admit_operation fuel r body s)
  unfolding admit_operation
  admit_operation_elim P fuel r body s refusal inner outer =
      guarded_elim P (identity_error r) s _ refusal
        (admit_elim P fuel r body s.current s refusal inner outer)
