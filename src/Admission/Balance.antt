-- ===== src/Admission/Balance.antt =====
-- What an admission opens it closes, on every way out, unless its owner is transferred.
use hermes_cashew.Base.{
  ℕ, zero, suc, ◌-◌, ◌+◌, ◌≡◌, refl, ap, if_elim, ◌∙◌, Bool, false, not, List, [], ◌++◌, leb, min,
}
use hermes_cashew.Locking.System.{System}
use hermes_cashew.Locking.Lease.{Entry}
use hermes_cashew.Admission.{OperationAdmission, Request, Owner, new_owner}
use hermes_cashew.Admission.Acquire.{Round, admitted, busy, broke, acquire_round}
use hermes_cashew.Admission.Acquire.Holds.{
  files, held, close_stack-descriptors, acquire_round-Holds,
}
use hermes_cashew.Admission.Operation.{
  has_returned, State, Result, Body, close_owner, run_admitted, settle, admit_rounds,
  admit_rounds-step, admit_operation, admit_operation_elim, poll,
}

-- A body that leaves open what it found open, and does not close its owner itself.
pub record IsBalanced (sys : System) {A E : Type 0} (body : Body sys A E) : Type 1 where
  pub keeps :
      (a : OperationAdmission) (o : Owner) (w : sys.World)
      → sys.descriptors (body a o w).2 ≡ sys.descriptors w
  pub owner_open : (a : OperationAdmission) (w : sys.World) → (body a new_owner w).1.closed ≡ false

module _ (sys : System) {A E : Type 0} (body : Body sys A E) (b : IsBalanced sys body) where
  open sys use {World, now, sleep, descriptors, descriptors_sleep}

  -- the descriptors that the result still owns, above `ds`
  abbrev Leaves : List ℕ → Result sys A E → Type 0
  Leaves ds res = descriptors res.state.world ≡ files res.kept ++ ds

  close_owner-descriptors :
      (h : Bool) (o : Owner) (es : List Entry) (w : World) (ds : List ℕ)
      → o.closed ≡ false
      → descriptors w ≡ files es ++ ds
      → descriptors (close_owner sys h o es w).1 ≡ ds
  unfolding close_owner
  close_owner-descriptors h o es w ds c p = rw c (close_stack-descriptors sys h es w ds p)

  run_admitted-Leaves :
      (token : OperationAdmission) (stack : List Entry) (s : State sys) (ds : List ℕ)
      → descriptors s.world ≡ files stack ++ ds
      → Leaves ds (run_admitted sys body token stack s)
  unfolding run_admitted
  run_admitted-Leaves token stack s ds p =
      let ran = body token new_owner s.world in
      let q = b.keeps token new_owner s.world ∙ p in
      if_elim (Leaves ds) ran.1.transferred q (
        close_owner-descriptors (not (has_returned ran.0)) ran.1 stack ran.2 ds
          (b.owner_open token s.world) q)

  settle-Leaves :
      (stop : ℕ) (round : Round) (s : State sys) (again : Result sys A E) (ds : List ℕ)
      → descriptors s.world ≡ held round ++ ds
      → (round ≡ busy → Leaves ds again)
      → Leaves ds (settle sys body stop round s again)
  unfolding settle
  settle-Leaves stop (admitted token stack) s again ds p q = run_admitted-Leaves token stack s ds p
  settle-Leaves stop (broke err) s again ds p q = p
  settle-Leaves stop busy s again ds p q = if_elim (Leaves ds) (leb stop (now s.world)) p (q refl)

  admit_rounds-Leaves :
      (fuel : ℕ) (r : Request) (stop : ℕ) (s : State sys)
      → Leaves (descriptors s.world) (admit_rounds sys fuel r stop body s)
  admit_rounds-Leaves zero r stop s = unfold admit_rounds in refl
  admit_rounds-Leaves (suc fuel) r stop s =
      let round = acquire_round sys r s.world in
      let waited = sleep (min poll (stop - now round.1)) round.1 in
      let next = record s { world = waited } in
      let held_by = acquire_round-Holds sys r s.world in
      rw (admit_rounds-step sys fuel r stop body s) (
        settle-Leaves stop round.0 (record s { world = round.1 }) _ (descriptors s.world) held_by
          (λ e.
            admit_rounds-Leaves fuel r stop next
            ∙ ap (◌++◌ (files (admit_rounds sys fuel r stop body next).kept)) (
                descriptors_sleep _ round.1 ∙ held_by ∙ ap (λ x. held x ++ descriptors s.world) e)))

  -- However an admission ends (refusal, deadline, a lock error, a value or an exception of its
  -- body), the descriptors open afterwards are those that were open before and, if its owner was
  -- transferred, those of its leases. The body is assumed to leave the descriptors as it found
  -- them and not to close its own owner.
  pub admit_operation-balanced :
      (fuel : ℕ) (r : Request) (s : State sys)
      → let res = admit_operation sys fuel r body s in
        descriptors res.state.world ≡ files res.kept ++ descriptors s.world
  admit_operation-balanced fuel r s =
      admit_operation_elim sys (Leaves (descriptors s.world)) fuel r body s (λ err. refl)
        (λ a o e. b.keeps a o s.world)
        (λ e. admit_rounds-Leaves fuel r (now s.world + r.deadline) s)

module _ (sys : System) {A E : Type 0} (body : Body sys A E)
    (stays : (a : OperationAdmission) (w : sys.World)
      → (body a new_owner w).1.transferred ≡ false) where
  abbrev KeepsNone : Result sys A E → Type 0
  KeepsNone res = res.kept ≡ []

  settle-KeepsNone :
      (stop : ℕ) (round : Round) (s : State sys) (again : Result sys A E)
      → KeepsNone again
      → KeepsNone (settle sys body stop round s again)
  unfolding settle run_admitted
  settle-KeepsNone stop (admitted token stack) s again k = rw (stays token s.world)
  settle-KeepsNone stop (broke err) s again k = refl
  settle-KeepsNone stop busy s again k = if_elim KeepsNone (leb stop (sys.now s.world)) refl k

  admit_rounds-KeepsNone :
      (fuel : ℕ) (r : Request) (stop : ℕ) (s : State sys)
      → KeepsNone (admit_rounds sys fuel r stop body s)
  admit_rounds-KeepsNone zero r stop s = unfold admit_rounds in refl
  admit_rounds-KeepsNone (suc fuel) r stop s =
      rw (admit_rounds-step sys fuel r stop body s)
        (settle-KeepsNone stop _ _ _ (admit_rounds-KeepsNone fuel r stop _))

  -- Where the body never transfers its owner, and leaves the descriptors as it found them, the
  -- descriptors open after an admission are those from before.
  pub admit_operation-restores :
      (fuel : ℕ) (r : Request) (s : State sys)
      → IsBalanced sys body
      → sys.descriptors (admit_operation sys fuel r body s).state.world ≡ sys.descriptors s.world
  admit_operation-restores fuel r s b =
      admit_operation-balanced sys body b fuel r s
      ∙ ap (λ es. files es ++ sys.descriptors s.world)
          (admit_operation_elim sys KeepsNone fuel r body s (λ err. refl) (λ a o e. refl)
            (λ e. admit_rounds-KeepsNone fuel r (sys.now s.world + r.deadline) s))
