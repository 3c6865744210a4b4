-- ===== src/Auxiliary/Permits.antt =====
-- No more than four permits of auxiliary calls are out, each for a call that is active or leaving.
use hermes_cashew.Base.{
  ℕ, zero, suc, ◌+◌, ◌≤◌, ◌≡◌, refl, Bool, false, not, ◌||◌, List, [], ◌∷◌, leb, not-leb→lt,
  if◌then◌else◌, arith, All, if_cases,
}
use hermes_cashew.Auxiliary.Calls.{
  Callable, max_outstanding, claim_auxiliary_call, release_auxiliary_call, claimed, enter_call,
  finish, leave, close, Move, enters, finishes, leaves, closes, move, move_at, run,
}

abbrev pub held_count : List Callable → ℕ
held_count [] = 0
held_count (c ∷ cs) = (if c.active then 1 else 0) + c.leaving + held_count cs

-- A call is active until it has finished.
abbrev pub Paired : Callable → Type 0
Paired c = c.finished ≡ not c.active

pub record IsWithin (cs : List Callable) (n : ℕ) : Type 0 where
  pub paired : All Paired cs
  pub counted : n ≡ held_count cs
  pub bounded : n ≤ max_outstanding

-- What a move leaves, with `k` permits out for others.
record Moved (k : ℕ) (x : Callable × ℕ) : Type 0 where
  paired : Paired x.0
  counted : x.1 ≡ k + (if x.0.active then 1 else 0) + x.0.leaving
  bounded : x.1 ≤ max_outstanding

enter_call-Moved :
    (c : Callable) (k n : ℕ)
    → c.closed || c.active ≡ false
    → Moved k (c, n)
    → Moved k (claimed c (claim_auxiliary_call n))
unfolding claim_auxiliary_call
enter_call-Moved c k n free m =
    if_cases (λ (x : Bool × ℕ). Moved k (claimed c x)) (leb max_outstanding n) (λ full. m)
      (λ room. record {
        paired = refl;
        counted = ground (arith, m.counted);
        bounded = omega (arith, not-leb→lt max_outstanding n room);
      })

move-Moved : (x : Move) (c : Callable) (k n : ℕ) → Moved k (c, n) → Moved k (move x c n)
unfolding move enter_call finish leave close release_auxiliary_call
move-Moved enters c k n m =
    if_cases (Moved k) (c.closed || c.active) (λ taken. m) (λ free. enter_call-Moved c k n free m)
move-Moved finishes c k n m =
    if_cases (Moved k) c.finished (λ over. m)
      (λ open_call. record {
        paired = refl;
        counted = ground (arith, m.counted, m.paired);
        bounded = omega (arith, m.bounded);
      })
move-Moved leaves c k n m =
    if_cases (Moved k) (leb 1 c.leaving)
      (λ some_leave. record {
        paired = m.paired;
        counted = ground (arith, m.counted);
        bounded = omega (arith, m.bounded);
      })
      (λ none_leaves. m)
move-Moved closes c k n m = record { paired = m.paired; counted = m.counted; bounded = m.bounded }

-- What a move at a place leaves, with `k` permits out for the callables in front.
record MovedAt (k : ℕ) (x : List Callable × ℕ) : Type 0 where
  paired : All Paired x.0
  counted : x.1 ≡ k + held_count x.0
  bounded : x.1 ≤ max_outstanding

move_at-MovedAt :
    (i : ℕ) (x : Move) (cs : List Callable) (k n : ℕ)
    → MovedAt k (cs, n)
    → MovedAt k (move_at i x cs n)
unfolding move_at
move_at-MovedAt i x [] k n m = m
move_at-MovedAt zero x (c ∷ cs) k n m =
    let moved =
      move-Moved x c (k + held_count cs) n
        (record { paired = m.paired.0; counted = omega (arith, m.counted); bounded = m.bounded }) in
    record {
      paired = (moved.paired, m.paired.1);
      counted = omega (arith, moved.counted);
      bounded = moved.bounded;
    }
move_at-MovedAt (suc i) x (c ∷ cs) k n m =
    let behind =
      move_at-MovedAt i x cs (k + ((if c.active then 1 else 0) + c.leaving)) n
        (record { paired = m.paired.1; counted = omega (arith, m.counted); bounded = m.bounded }) in
    record {
      paired = (m.paired.0, behind.paired);
      counted = omega (arith, behind.counted);
      bounded = behind.bounded;
    }

-- From callables that are within the limit, whatever they do, in any order, no more than four
-- permits are out, and their number is that of the active calls and of the calls that have become
-- inactive and have still to release their permit.
pub run-IsWithin :
    (ms : List (ℕ × Move)) (cs : List Callable) (n : ℕ)
    → IsWithin cs n
    → IsWithin (run ms (cs, n)).0 (run ms (cs, n)).1
unfolding run
run-IsWithin [] cs n w = w
run-IsWithin ((i, x) ∷ ms) cs n w =
    let m =
      move_at-MovedAt i x cs 0 n
        (record { paired = w.paired; counted = omega (arith, w.counted); bounded = w.bounded }) in
    run-IsWithin ms (move_at i x cs n).0 (move_at i x cs n).1
      (record { paired = m.paired; counted = omega (arith, m.counted); bounded = m.bounded })
