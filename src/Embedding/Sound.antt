-- ===== src/Embedding/Sound.antt =====
-- The ending of a supervisor: what holds of it at any time, and the steps that keep it.
use hermes_cashew.Base.{
  ℕ, ◌+◌, ◌≡◌, sym, ap, subst, ◌∙◌, Bool, true, false, List, [], ◌∷◌, ◌++◌, leb, ◌==◌,
  if◌then◌else◌, ◌⊎◌, inl, inr, arith,
}
use hermes_cashew.Embedding.Supervisor.{Owner, Ending, new_ending, Supervisor}
use hermes_cashew.Embedding.Unchanged.{Same}

abbrev pub is_itself : Owner → Bool
is_itself Owner.itself = true
is_itself Owner.nobody = false
is_itself Owner.another = false

unfoldable pub occurrences : ℕ → List ℕ → ℕ
occurrences n [] = 0
occurrences n (x ∷ xs) = (if n == x then 1 else 0) + occurrences n xs

pub occurrences-append :
    (n : ℕ) (xs ys : List ℕ) → occurrences n (xs ++ ys) ≡ occurrences n xs + occurrences n ys
unfolding occurrences
occurrences-append n [] ys = omega arith
occurrences-append n (x ∷ xs) ys = omega (arith, occurrences-append n xs ys)

-- what a supervisor that was never closed has: its callbacks, and nothing else
abbrev pub fresh : List ℕ → Ending
fresh cs = record new_ending { close_callbacks = cs }

abbrev pub IsOpen : Ending → Type 0
IsOpen e = (cs : List ℕ) × (e ≡ fresh cs)

-- The callbacks `rs` were registered. An unclosed supervisor is the owner and is not being closed;
-- one that is the owner has told nobody of its end.
pub record IsAccounted (rs : List ℕ) (e : Ending) : Type 0 where
  pub safe : (e.closed ≡ true) ⊎ IsOpen e
  pub told : is_itself e.owner ≡ true → (e.notifying ≡ 0) × (e.owner_released ≡ false)
  pub counted :
      (n : ℕ)
      → occurrences n e.called
          + occurrences n e.running
          + occurrences n e.direct
          + occurrences n e.close_callbacks
        ≡ occurrences n rs
  pub silent : e.owner_released ≡ false → (e.called ≡ []) × (e.running ≡ []) × (e.direct ≡ [])
  pub none_waits : e.owner_released ≡ true → e.close_callbacks ≡ []

-- what is never undone
pub record Stays (e e' : Ending) : Type 0 where
  pub closed_stays : e.closed ≡ true → e'.closed ≡ true
  pub lost_stays : is_itself e.owner ≡ false → is_itself e'.owner ≡ false
  pub told_stays : e.owner_released ≡ true → e'.owner_released ≡ true

-- One step, which registers what makes `rs'` of `rs`.
pub record Goes (rs rs' : List ℕ) (e e' : Ending) : Type 0 where
  pub stays : Stays e e'
  pub sound : IsAccounted rs e → IsAccounted rs' e'

pub Goes-refl : (rs : List ℕ) (e : Ending) → Goes rs rs e e
Goes-refl rs e = record {
  stays = record { closed_stays = λ c. c; lost_stays = λ l. l; told_stays = λ t. t };
  sound = λ v. v;
}

pub Goes-Same : (rs : List ℕ) {s t : Supervisor} → Same s t → Goes rs rs s.ending t.ending
Goes-Same rs {s = s} p = subst (Goes rs rs s.ending) (sym p.ending_same) (Goes-refl rs s.ending)

-- Two endings that differ in the mark of `close` and in the threads that are underway in it.
abbrev pub Alike : Ending → Ending → Type 0
Alike e e' =
    (e'.owner ≡ e.owner)
    × (e'.owner_released ≡ e.owner_released)
    × (e'.notifying ≡ e.notifying)
    × (e'.close_callbacks ≡ e.close_callbacks)
    × (e'.running ≡ e.running)
    × (e'.direct ≡ e.direct)
    × (e'.called ≡ e.called)

pub Goes-Alike :
    (rs : List ℕ) (e e' : Ending)
    → Alike e e'
    → (e.closed ≡ true → e'.closed ≡ true)
    → (IsAccounted rs e → e'.closed ≡ true)
    → Goes rs rs e e'
Goes-Alike rs e e' (o, r, n, w, x, d, c) closed safe = record {
  stays = record { closed_stays = closed; lost_stays = λ l. rw o l; told_stays = λ t. rw r t };
  sound = λ v. record {
    safe = inl (safe v);
    told = rw (o, n, r) v.told;
    counted = λ m. rw (c, x, d, w) (v.counted m);
    silent = rw (r, c, x, d) v.silent;
    none_waits = rw (r, w) v.none_waits;
  };
}

-- A thread that is underway in `close` tells that the supervisor is closed.
pub underway-closed :
    (rs : List ℕ) (threads : Ending → ℕ) (e : Ending)
    → ((cs : List ℕ) → threads (fresh cs) ≡ 0)
    → leb 1 (threads e) ≡ true
    → IsAccounted rs e
    → e.closed ≡ true
underway-closed rs threads e none_fresh some_are v = elim v.safe [
  | inl c ↦ c
  | inr (cs, f) ↦ absurd (ground (arith, some_are, ap threads f, none_fresh cs))
]

pub Goes-claim_owner :
    (rs : List ℕ) (e : Ending) (o : Owner)
    → is_itself e.owner ≡ false
    → is_itself o ≡ false
    → Goes rs rs e (record e { owner = o })
Goes-claim_owner rs e o lost other = record {
  stays = record { closed_stays = λ c. c; lost_stays = λ l. other; told_stays = λ t. t };
  sound = λ v. record {
    safe = elim v.safe [
      | inl c ↦ inl c
      | inr (cs, f) ↦ absurd (cc (sym lost ∙ ap (λ x. is_itself x.owner) f))
    ];
    told = λ h. absurd (cc (other, h));
    counted = v.counted;
    silent = v.silent;
    none_waits = v.none_waits;
  };
}

-- `f` moves the threads of `close` and their mark only, and where it moves one there is one.
pub Goes-threads :
    (rs : List ℕ) (threads : Ending → ℕ) (e e' : Ending)
    → ((cs : List ℕ) → threads (fresh cs) ≡ 0)
    → leb 1 (threads e) ≡ true
    → Alike e e'
    → e'.closed ≡ e.closed
    → Goes rs rs e e'
Goes-threads rs threads e e' none_fresh some_are alike same =
    Goes-Alike rs e e' alike (λ c. same ∙ c)
      (λ v. same ∙ underway-closed rs threads e none_fresh some_are v)
