-- ===== src/Health/Reconcile.antt =====
-- The ledger accounts for all the accepted work, exactly as long as its methods are called in order.
use hermes_cashew.Base.{◌<◌, ◌≡◌, refl, ◌↔◌, ◌⊎◌, Bool, true, false, List, [], ◌∷◌, arith}
use hermes_cashew.Health.{
  OutcomeLedger, new_ledger, admit, reject, start, complete, fail, drop_pending, drop_in_flight,
  reject_in_flight, work_snapshot, accounted,
}

-- The calls that move work.
pub data WorkCall : Type 0 where
  admits rejects starts completes drops_pending drops_in_flight rejects_in_flight : WorkCall
  fails : Bool → Bool → WorkCall

unfoldable pub apply : WorkCall → OutcomeLedger → OutcomeLedger
unfolding admit reject start complete fail drop_pending drop_in_flight reject_in_flight
apply admits = admit
apply rejects = reject
apply starts = start
apply completes = complete
apply drops_pending = drop_pending
apply drops_in_flight = drop_in_flight
apply rejects_in_flight = reject_in_flight
apply (fails partial uncertain) = fail partial uncertain

-- What a call needs: work to take, or, for reject_in_flight, nothing accepted, when the two
-- decrements stop at 0.
abbrev pub Takes : WorkCall → OutcomeLedger → Type 0
Takes admits l = Unit {0}
Takes rejects l = Unit {0}
Takes starts l = 0 < l.pending
Takes drops_pending l = 0 < l.pending
Takes completes l = 0 < l.in_flight
Takes drops_in_flight l = 0 < l.in_flight
Takes (fails partial uncertain) l = 0 < l.in_flight
Takes rejects_in_flight l = (0 < l.in_flight) ⊎ (l.accepted ≡ 0)

abbrev pub IsReconciled : OutcomeLedger → Type 0
IsReconciled l = l.accepted ≡ accounted l

-- From a reconciled ledger, admit and reject lead to a reconciled one, and the other calls do
-- exactly when there is work for them to take: pending work for start and drop_pending, work in
-- flight for the rest; reject_in_flight also does when nothing was accepted.
pub apply-IsReconciled_iff :
    (c : WorkCall) (l : OutcomeLedger) → IsReconciled l → IsReconciled (apply c l) ↔ Takes c l
unfolding apply
apply-IsReconciled_iff admits l r = (λ _. tt, λ _. omega arith)
apply-IsReconciled_iff rejects l r = (λ _. tt, λ _. omega arith)
apply-IsReconciled_iff (fails true u) l r = ground arith
apply-IsReconciled_iff (fails false u) l r = ground arith
apply-IsReconciled_iff c l r = ground arith

-- A history in which each call has what it needs.
pub data Orderly : OutcomeLedger → List WorkCall → OutcomeLedger → Type 0 where
  done : {l : OutcomeLedger} → Orderly l [] l
  then_call :
      {l m : OutcomeLedger} (c : WorkCall) {cs : List WorkCall}
      → Takes c l
      → Orderly (apply c l) cs m
      → Orderly l (c ∷ cs) m

Orderly-IsReconciled :
    {l m : OutcomeLedger} {cs : List WorkCall} → Orderly l cs m → IsReconciled l → IsReconciled m
Orderly-IsReconciled done r = r
Orderly-IsReconciled {l = l} (then_call c t rest) r =
    Orderly-IsReconciled rest ((apply-IsReconciled_iff c l r).1 t)

-- The snapshot of a ledger that a history reaches from a new one, each call with work to take,
-- says that it is reconciled.
pub Orderly-reconciled :
    {m : OutcomeLedger} {cs : List WorkCall}
    → Orderly new_ledger cs m
    → (work_snapshot m).reconciled ≡ true
unfolding work_snapshot
Orderly-reconciled h = ground (arith, Orderly-IsReconciled h refl)
