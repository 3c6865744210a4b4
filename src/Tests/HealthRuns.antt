-- ===== src/Tests/HealthRuns.antt =====
-- A ledger that admits two pieces of work, completes one and drops the other.
use hermes_cashew.Base.{◌↔◌, refl, true, false, List, [], ◌∷◌, arith}
use hermes_cashew.Health.{OutcomeLedger, new_ledger}
use hermes_cashew.Health.Reconcile.{
  apply, Takes, IsReconciled, apply-IsReconciled_iff, Orderly, done, then_call, admits, starts,
  completes, drops_pending,
}
use hermes_cashew.Health.Tools.{ToolCall}

abbrev one_pending : OutcomeLedger
one_pending = record new_ledger { accepted = 1; pending = 1 }

apply-IsReconciled_iff_example : IsReconciled (apply starts one_pending) ↔ Takes starts one_pending
apply-IsReconciled_iff_example = apply-IsReconciled_iff starts one_pending refl

abbrev ended : OutcomeLedger
unfolding apply
ended =
    apply drops_pending (apply completes (apply starts (apply admits (apply admits new_ledger))))

history : Orderly new_ledger (admits ∷ admits ∷ starts ∷ completes ∷ drops_pending ∷ []) ended
unfolding apply
history = then_call admits tt (
    then_call admits tt (
      then_call starts (omega arith)
        (then_call completes (omega arith) (then_call drops_pending (omega arith) done))))

abbrev tool_calls : List ToolCall
tool_calls =
    record { tool = "cashew_query"; success = true; empty = true }
    ∷ record { tool = "cashew_extract"; success = false; empty = false }
    ∷ record { tool = "cashew_query"; success = false; empty = false }
    ∷ []
