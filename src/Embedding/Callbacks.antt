-- ===== src/Embedding/Callbacks.antt =====
-- The steps that take, run and register the callbacks.
use hermes_cashew.Base.{
  ℕ, zero, suc, ◌+◌, ◌≡◌, refl, sym, ap, true, List, [], ◌∷◌, ◌++◌, Option, none, some, leb, ◌==◌,
  if◌then◌else◌, if_cases, Bool-cases, inl, inr, arith,
}
use hermes_cashew.Embedding.Supervisor.{
  Ending, take_callbacks, run_callback, split_at, run_direct, when_closed,
}
use hermes_cashew.Embedding.Sound.{
  is_itself, occurrences, occurrences-append, IsAccounted, Goes, Goes-refl, underway-closed,
}

pub notifying-lost :
    (rs : List ℕ) (e : Ending)
    → leb 1 e.notifying ≡ true
    → IsAccounted rs e
    → is_itself e.owner ≡ true
    → ⊥
notifying-lost rs e h v l = ground (arith, h, (v.told l).0)

pub Goes-take_callbacks : (rs : List ℕ) (e : Ending) → Goes rs rs e (take_callbacks e)
unfolding take_callbacks
Goes-take_callbacks rs e =
    if_cases (Goes rs rs e) (leb 1 e.notifying)
      (λ h. record {
        stays = record { closed_stays = λ c. c; lost_stays = λ l. l; told_stays = λ t. refl };
        sound = λ v. record {
          safe = inl (underway-closed rs (λ x. x.notifying) e (λ cs. refl) h v);
          told = λ l. absurd (notifying-lost rs e h v l);
          counted = λ n.
              unfold occurrences in
              omega (arith, v.counted n, occurrences-append n e.running e.close_callbacks);
          silent = λ s. absurd (cc s);
          none_waits = λ _. refl;
        };
      })
      (λ _. Goes-refl rs e)

-- one of the callbacks runs
pub called-counted :
    (n c : ℕ) (xs : List ℕ)
    → occurrences n (xs ++ (c ∷ [])) ≡ occurrences n xs + (if n == c then 1 else 0)
unfolding occurrences
called-counted n c xs = omega (arith, occurrences-append n xs (c ∷ []))

pub occurrences-cons :
    (n c : ℕ) (xs : List ℕ) → occurrences n (c ∷ xs) ≡ (if n == c then 1 else 0) + occurrences n xs
unfolding occurrences
occurrences-cons n c xs = refl

pub split_at-none : (i : ℕ) → split_at i [] ≡ none
unfolding split_at
split_at-none i = refl

-- `e` runs one of its callbacks; it has one only after it has told of its end.
pub Goes-called :
    (rs : List ℕ) (e : Ending) (xs ds cs : List ℕ)
    → (IsAccounted rs e → e.owner_released ≡ true)
    → ((n : ℕ)
        → occurrences n cs + occurrences n xs + occurrences n ds
          ≡ occurrences n e.called + occurrences n e.running + occurrences n e.direct)
    → Goes rs rs e (record e { running = xs; direct = ds; called = cs })
Goes-called rs e xs ds cs late same = record {
  stays = record { closed_stays = λ c. c; lost_stays = λ l. l; told_stays = λ t. t };
  sound = λ v. record {
    safe = elim v.safe [
      | inl c ↦ inl c
      | inr (ws, f) ↦ absurd (cc (late v, ap (λ x. x.owner_released) f))
    ];
    told = v.told;
    counted = λ n. omega (arith, same n, v.counted n);
    silent = λ s. absurd (cc (s, late v));
    none_waits = v.none_waits;
  };
}

pub at_hand-told :
    (rs : List ℕ) (e : Ending)
    → (e.running ≡ [] → e.direct ≡ [] → ⊥)
    → IsAccounted rs e
    → e.owner_released ≡ true
at_hand-told rs e some_is v = elim (Bool-cases e.owner_released) [
  | inl t ↦ t
  | inr f ↦ absurd (some_is (v.silent f).1 (v.silent f).2)
]

pub Goes-run_callback :
    (rs : List ℕ) (xs : List ℕ) (e : Ending) → e.running ≡ xs → Goes rs rs e (run_callback xs e)
unfolding run_callback
Goes-run_callback rs [] e h = Goes-refl rs e
Goes-run_callback rs (c ∷ cs) e h =
    Goes-called rs e cs e.direct (e.called ++ (c ∷ []))
      (at_hand-told rs e (λ none_is _. absurd (cc (none_is, h))))
      (λ n.
        omega (arith, called-counted n c e.called, ap (occurrences n) h, occurrences-cons n c cs))

pub some_of : (p q : ℕ × List ℕ) → some p ≡ some q → p ≡ q
some_of p q h = cc h

abbrev pub weight : ℕ → ℕ × List ℕ → ℕ
weight n p = (if n == p.0 then 1 else 0) + occurrences n p.1

pub split_at-counted :
    (i : ℕ) (xs : List ℕ) (c : ℕ) (cs : List ℕ)
    → split_at i xs ≡ some (c, cs)
    → (n : ℕ) → occurrences n xs ≡ (if n == c then 1 else 0) + occurrences n cs
unfolding split_at occurrences
split_at-counted i [] c cs h n = absurd (cc h)
split_at-counted zero (x ∷ xs) c cs h n = ap (weight n) (some_of (x, xs) (c, cs) h)
split_at-counted (suc i) (x ∷ xs) c cs h n =
    deeper (λ d ds e. split_at-counted i xs d ds e n) (split_at i xs) refl h
  where
    deeper :
        ((d : ℕ) (ds : List ℕ)
          → split_at i xs ≡ some (d, ds)
          → occurrences n xs ≡ (if n == d then 1 else 0) + occurrences n ds)
        → (o : Option (ℕ × List ℕ)) → split_at i xs ≡ o
        → (elim o as (λ _. Option (ℕ × List ℕ)) [ none ↦ none | some (d, ds) ↦ some (d, x ∷ ds) ])
          ≡ some (c, cs)
        → (if n == x then 1 else 0) + occurrences n xs
          ≡ (if n == c then 1 else 0) + occurrences n cs
    deeper rest none e g = absurd (cc g)
    deeper rest (some (d, ds)) e g =
        omega (arith, rest d ds e, ap (weight n) (some_of (d, x ∷ ds) (c, cs) g))

pub Goes-run_direct :
    (rs : List ℕ) (i : ℕ) (o : Option (ℕ × List ℕ)) (e : Ending)
    → split_at i e.direct ≡ o
    → Goes rs rs e (run_direct o e)
unfolding run_direct
Goes-run_direct rs i none e h = Goes-refl rs e
Goes-run_direct rs i (some (c, cs)) e h =
    Goes-called rs e e.running cs (e.called ++ (c ∷ []))
      (at_hand-told rs e
        (λ _ none_is. absurd (cc (sym h, ap (split_at i) none_is, split_at-none i))))
      (λ n. omega (arith, called-counted n c e.called, split_at-counted i e.direct c cs h n))

pub Goes-when_closed :
    (rs : List ℕ) (c : ℕ) (e : Ending) → Goes rs (rs ++ (c ∷ [])) e (when_closed c e)
unfolding when_closed
Goes-when_closed rs c e =
    if_cases (Goes rs (rs ++ (c ∷ [])) e) e.owner_released
      (λ h. record {
        stays = record { closed_stays = λ x. x; lost_stays = λ l. l; told_stays = λ t. t };
        sound = λ v. record {
          safe = elim v.safe [
            | inl x ↦ inl x
            | inr (ws, f) ↦ absurd (cc (h, ap (λ x. x.owner_released) f))
          ];
          told = v.told;
          counted =
              λ n. omega (arith, v.counted n, called-counted n c e.direct, called-counted n c rs);
          silent = λ s. absurd (cc (s, h));
          none_waits = v.none_waits;
        };
      })
      (λ h. record {
        stays = record { closed_stays = λ x. x; lost_stays = λ l. l; told_stays = λ t. t };
        sound = λ v. record {
          safe = elim v.safe [
            | inl x ↦ inl x
            | inr (ws, f) ↦ inr (
              ws ++ (c ∷ []),
              ap (λ (x : Ending). record x { close_callbacks = x.close_callbacks ++ (c ∷ []) }) f,
            )
          ];
          told = v.told;
          counted = λ n.
              omega
                (arith, v.counted n, called-counted n c e.close_callbacks, called-counted n c rs);
          silent = v.silent;
          none_waits = λ t. absurd (cc (t, h));
        };
      })
