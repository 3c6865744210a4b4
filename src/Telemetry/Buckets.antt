-- ===== src/Telemetry/Buckets.antt =====
-- The numbers of an event: bounded counters and coarse durations.
use hermes_cashew.Base.{
  ℕ, ◌+◌, ◌-◌, ◌*◌, ◌^◌, ◌≤◌, ◌<◌, ◌≡◌, Bool, false, List, [], ◌∷◌, Option, none, some, arith, leb,
  if◌then◌else◌, inl, inr, Bool-cases, All, ap, subst,
}
use hermes_cashew.Base.Int.{ℤ, pos, negsuc, clamp_to, clamp_to-le}
use hermes_cashew.Base.Value.{Value, int, float, finite}

-- `float(value)` of an integer that no double is near raises OverflowError.
pub data Result {ℓ} (A : Type ℓ) : Type ℓ where
  ok : A → Result A
  overflow : Result A

infixl 5 ◌>>=◌
abbrev pub ◌>>=◌ {ℓ κ} : {A : Type ℓ} {B : Type κ} → Result A → (A → Result B) → Result B
ok a >>= f = f a
overflow >>= f = overflow

unfoldable pub bounded_int : Value → Option ℕ
unfolding clamp_to
bounded_int (int z) = some (clamp_to z 1000000000)
bounded_int v = none

abbrev pub ceilings : List ℕ
ceilings = 1 ∷ 10 ∷ 100 ∷ 1000 ∷ 10000 ∷ 60000 ∷ 600000 ∷ 3600000 ∷ 86400000 ∷ []

abbrev pub longest : ℕ
longest = 86400000

-- The first ceiling that the duration, in units of 1 / scale of a millisecond, does not pass.
unfoldable pub first_ceiling : ℕ → ℕ → List ℕ → ℕ
first_ceiling scale duration [] = longest
first_ceiling scale duration (c ∷ cs) =
    if leb duration (c * scale) then c else first_ceiling scale duration cs

-- units of a finite double in 1
unfoldable pub unit : ℕ
unit = 2 ^ 1074

-- The least magnitude that rounds to 2 ^ 1024, past the doubles.
unfoldable pub too_large : ℤ → Bool
too_large (pos n) = leb (2 ^ 1024 - 2 ^ 970) n
too_large (negsuc n) = leb (2 ^ 1024 - 2 ^ 970) (n + 1)

unfoldable pub duration_bucket : Value → Result (Option ℕ)
unfolding clamp_to first_ceiling
duration_bucket (int z) =
    if too_large z then overflow else ok (some (first_ceiling 1 (clamp_to z longest) ceilings))
duration_bucket (float (finite z)) =
    ok (some (first_ceiling unit (clamp_to z (longest * unit)) ceilings))
duration_bucket v = ok none

-- `b` is the least of the ceilings that the duration does not pass.
abbrev pub IsBucket : ℕ → ℕ → ℕ → Type 0
IsBucket scale duration b =
    (duration ≤ b * scale) × All (λ c. c < b → c * scale < duration) ceilings

pub first_ceiling-IsBucket :
    (scale duration : ℕ)
    → duration ≤ longest * scale
    → IsBucket scale duration (first_ceiling scale duration ceilings)
unfolding first_ceiling
first_ceiling-IsBucket scale duration h = ground arith

pub first_ceiling-le : (scale duration : ℕ) → first_ceiling scale duration ceilings ≤ longest
unfolding first_ceiling
first_ceiling-le scale duration = ground arith

-- A ceiling is its own bucket.
pub first_ceiling_idem :
    (scale duration : ℕ)
    → let b = first_ceiling scale duration ceilings in
      first_ceiling 1 (clamp_to (pos b) longest) ceilings ≡ b
unfolding first_ceiling clamp_to
first_ceiling_idem scale duration = ground arith

-- A bucket is a duration that selecting again keeps, and it is at most a day.
pub record IsKept (b : ℕ) : Type 0 where
  pub bounded : b ≤ longest
  pub fixed : duration_bucket (int (pos b)) ≡ ok (some b)

not_too_large : (n : ℕ) → n ≤ longest → too_large (pos n) ≡ false
unfolding too_large
not_too_large n h = ground arith

first_ceiling-IsKept : (scale duration : ℕ) → IsKept (first_ceiling scale duration ceilings)
unfolding duration_bucket
first_ceiling-IsKept scale duration = record {
  bounded = first_ceiling-le scale duration;
  fixed =
      rw (not_too_large (first_ceiling scale duration ceilings) (first_ceiling-le scale duration))
        (ap (λ k. ok (some k)) (first_ceiling_idem scale duration));
}

ok-some-inj : {a b : ℕ} → ok (some a) ≡ ok (some b) → a ≡ b
ok-some-inj h = cc

duration_bucket-int :
    (z : ℤ) (b : ℕ)
    → duration_bucket (int z) ≡ ok (some b)
    → first_ceiling 1 (clamp_to z longest) ceilings ≡ b
unfolding duration_bucket
duration_bucket-int z b h = elim (Bool-cases (too_large z)) [
  | inl e ↦ absurd (cc (rw e at h))
  | inr e ↦ ok-some-inj (rw e at h)
]

pub duration_bucket-IsKept : (v : Value) (b : ℕ) → duration_bucket v ≡ ok (some b) → IsKept b
unfolding duration_bucket
duration_bucket-IsKept (int z) b h =
    subst IsKept (duration_bucket-int z b h) (first_ceiling-IsKept 1 (clamp_to z longest))
duration_bucket-IsKept (float (finite z)) b h =
    subst IsKept (ok-some-inj h) (first_ceiling-IsKept unit (clamp_to z (longest * unit)))
duration_bucket-IsKept v b h = cc

-- The bucket of an integer or of a finite double is the least ceiling that the duration, held
-- within zero and one day, does not pass; a double is counted in units of 2 ^ -1074.
pub duration_bucket-IsBucket :
    (z : ℤ) (b : ℕ)
    → (duration_bucket (int z) ≡ ok (some b) → IsBucket 1 (clamp_to z longest) b)
      × (duration_bucket (float (finite z)) ≡ ok (some b)
          → IsBucket unit (clamp_to z (longest * unit)) b)
unfolding duration_bucket
duration_bucket-IsBucket z b = (
  λ h.
      subst (IsBucket 1 (clamp_to z longest)) (duration_bucket-int z b h)
        (first_ceiling-IsBucket 1 (clamp_to z longest) (clamp_to-le z longest)),
  λ h.
      subst (IsBucket unit (clamp_to z (longest * unit))) (ok-some-inj h) (
        first_ceiling-IsBucket unit (clamp_to z (longest * unit)) (clamp_to-le z (longest * unit))),
)
