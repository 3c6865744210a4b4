-- ===== src/Embedding/Backoff.antt =====
-- How long failures put the next launch off.
use hermes_cashew.Base.{
  ℕ, zero, suc, ◌+◌, ◌-◌, ◌*◌, ◌^◌, min, ◌≡◌, sym, ap, ◌∙◌, List, [], ◌∷◌, length, arith,
}
use hermes_cashew.Embedding.Supervisor.{Supervisor, backoff, record_failure}

-- the wait after one failure and `n` more: it doubles up to five times, up to 30 s
abbrev pub doubled : ℕ → ℕ → ℕ
doubled base zero = min 30000 base
doubled base (suc n) = min 30000 (doubled base n + doubled base n)

-- failures in a row, at these times
unfoldable pub failures : ℕ → List ℕ → Supervisor → Supervisor
failures base [] s = s
failures base (t ∷ ts) s = failures base ts (record_failure base t s)

power_doubles : (base n : ℕ) → base * 2 ^ suc n ≡ base * 2 ^ n + base * 2 ^ n
power_doubles base n = grind arith

doubled_power : (base n : ℕ) → doubled base n ≡ min 30000 (base * 2 ^ n)
doubled_power base zero = omega arith
doubled_power base (suc n) = omega (arith, doubled_power base n, power_doubles base n)

failure_count-failures :
    (base : ℕ) (ts : List ℕ) (s : Supervisor)
    → (failures base ts s).failure_count ≡ s.failure_count + length ts
unfolding failures record_failure
failure_count-failures base [] s = omega arith
failure_count-failures base (t ∷ ts) s =
    failure_count-failures base ts (record_failure base t s) ∙ omega arith

-- After failures at any times and one more at the time last, on a supervisor that counted none
-- before, the next launch is put off by the base, at most 30 s, doubled once for each earlier
-- failure up to the fifth, each time at most to 30 s.
pub next_start-failures :
    (base : ℕ) (ts : List ℕ) (last : ℕ) (s : Supervisor)
    → s.failure_count ≡ 0
    → (record_failure base last (failures base ts s)).next_start
      ≡ last + doubled base (min (length ts) 5)
unfolding record_failure backoff
next_start-failures base ts last s none_before =
    let count : (failures base ts s).failure_count + 1 - 1 ≡ length ts =
      omega (arith, failure_count-failures base ts s, none_before) in
    ap (λ n. last + min 30000 (base * 2 ^ min n 5)) count
    ∙ ap (λ n. last + n) (sym (doubled_power base (min (length ts) 5)))
