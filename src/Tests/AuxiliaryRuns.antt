-- ===== src/Tests/AuxiliaryRuns.antt =====
-- A role that is enabled, a prompt, and two callables.
use hermes_cashew.Base.{ℕ, refl, List, [], ◌∷◌, arith}
use hermes_cashew.Base.Value.{Fields, end, field, dict, str}
use hermes_cashew.Auxiliary.Calls.{
  Callable, new_callable, Move, enters, finishes, leaves, closes, run,
}
use hermes_cashew.Auxiliary.Permits.{IsWithin, run-IsWithin}

abbrev profile : Fields
profile = field "auxiliary" (dict (field "memory" (dict (field "provider" (str "p") end)) end)) end

abbrev prompt : List ℕ
prompt = 104 ∷ 105 ∷ []

abbrev callables : List Callable
callables = new_callable ∷ new_callable ∷ []

abbrev moves : List (ℕ × Move)
moves = (0, enters) ∷ (1, enters) ∷ (0, finishes) ∷ (0, enters) ∷ (0, leaves) ∷ (1, closes) ∷ []

callables-IsWithin : IsWithin callables 0
callables-IsWithin = record { paired = (refl, (refl, tt)); counted = refl; bounded = omega arith }

run-IsWithin_example : IsWithin (run moves (callables, 0)).0 (run moves (callables, 0)).1
run-IsWithin_example = run-IsWithin moves callables 0 callables-IsWithin
