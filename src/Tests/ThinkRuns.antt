-- ===== src/Tests/ThinkRuns.antt =====
-- A claim that is left open, and three rounds with an interval of two. The texts of numbers are
-- tallies here.
use Prim.Native.String.count
use Prim.Native.String.{count, ◌∷◌ as ◌∷ᵗ◌}
use hermes_cashew.Base.{
  ℕ, zero, suc, ◌+◌, ◌*◌, ◌<◌, ◌≡◌, refl, ap, ◌∙◌, true, false, [], ◌∷◌, length, Option, none, some,
  String, arith, member,
}
use hermes_cashew.Base.Int.{ℤ, pos, negsuc}
use hermes_cashew.Think.{
  Thinker, progress, Round, commits, aborts, round, recover, or_default, blocks, settle,
  finish_claim, think, claim, count as count_turn, run_think_cycle_if_due, run,
}
use hermes_cashew.Think.Claims.{calls-run-unfinished}
use hermes_cashew.Think.Period.{IsGood, Stands, calls-run-good}

abbrev tally : ℕ → String
tally zero = ""
tally (suc n) = "1" ∷ᵗ tally n

abbrev read : String → Option ℤ
read s = some (pos (count s))

abbrev write : ℤ → String
write (pos n) = tally n
write (negsuc n) = "-"

count-tally : (n : ℕ) → count (tally n) ≡ n
count-tally zero = count.nil
count-tally (suc n) = count.cons "1" (tally n) ∙ ap suc (count-tally n)

read-write : (n : ℕ) → read (write (pos n)) ≡ some (pos n)
read-write n = ap (λ m. some (pos m)) (count-tally n)

abbrev fresh : Thinker
fresh = record {
  think_counter = some "";
  think_claim_epoch = none;
  think_claim_state = none;
  claim_state = "none";
  calls = [];
}

abbrev lost : Round
lost = record {
  admitted = true;
  epoch = "1:7";
  claim_error = false;
  thought = progress;
  finish = aborts;
}

abbrev good : Round
good = record lost { finish = commits }

lost_calls :
    length (run_think_cycle_if_due read write 1 true lost fresh).calls ≡ suc (length fresh.calls)
unfolding run_think_cycle_if_due count_turn claim think finish_claim settle blocks or_default member
lost_calls = refl

fresh-Stands : Stands write 0 fresh
unfolding blocks or_default member
fresh-Stands = record { at = refl; free = refl }

-- A call whose result could not be stored, a restart, and a round that would be due.
calls-run-unfinished_example :
    (run read write 1 true
      (recover false ∷ round good ∷ [])
      (run_think_cycle_if_due read write 1 true lost fresh)).calls
    ≡ (run_think_cycle_if_due read write 1 true lost fresh).calls
calls-run-unfinished_example =
    calls-run-unfinished read write 1 true lost (recover false ∷ round good ∷ []) fresh
      (λ _ e. absurd (cc e)) lost_calls

good_round : IsGood (round good)
good_round = (refl, refl, refl, refl)

calls-run-good_example :
    (m : ℕ) × Stands write m
      (run read write 2 true (round good ∷ round good ∷ round good ∷ []) fresh)
    × (m < 2)
    × (length (run read write 2 true (round good ∷ round good ∷ round good ∷ []) fresh).calls * 2
          + m
        ≡ 0 * 2 + (0 + 3))
calls-run-good_example =
    calls-run-good read write 2 read-write (round good ∷ round good ∷ round good ∷ []) 0 fresh
      (good_round, (good_round, (good_round, tt))) fresh-Stands (omega arith)
