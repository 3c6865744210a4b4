-- ===== src/Config/Normal.antt =====
-- A validated configuration: what its values are, and that validating again changes nothing.
use hermes_cashew.Base.{
  ℕ, ◌*◌, ◌≤◌, ◌≡◌, refl, sym, ap, subst, ◌∙◌, Bool, true, false, ◌&&◌, List, [], ◌∷◌, some, String,
  str_eq, str_eq_refl, eq_iff, member, member-cons, leb, arith, Bool-cases, inl, inr, leb→le,
  le→leb, if_elim, if_cases,
}
use hermes_cashew.Base.Int.{pos, negsuc}
use hermes_cashew.Base.Value.{
  Value, null, bool, int, float, str, dict, Fields, end, field, get, filter_keys, finite,
}
use hermes_cashew.Telemetry.Buckets.{unit, too_large}
use hermes_cashew.Config.Fields.{
  Result, ok, err, ◌>>=◌, config_keys, is_blank, validate_nonempty_string, validate_count,
  validate_timeout, validate_features, has_empty_name, has_non_bool, retained_flag, Kind, db_path,
  nonempty, role, schedule, switch, timeout, features, count, kind_of, resolve_db_path,
  validate_kind, validate_field, require, validate_keys, validate_config_values,
}

-- What a setting of each class holds.
abbrev pub Holds : Kind → Value → Type 0
Holds db_path (str s) = is_blank s ≡ false
Holds nonempty (str s) = is_blank s ≡ false
Holds role null = Unit
Holds role (str s) = Unit
Holds schedule (str s) = Unit
Holds switch (bool b) = Unit
Holds (count lower upper) (int (pos n)) = (lower ≤ n) × (n ≤ upper)
Holds timeout (float (finite (pos n))) = n ≤ 300 * unit
Holds features (dict d) = (has_empty_name d ≡ false) × (has_non_bool d ≡ false)
Holds k v = ⊥

filter-flags :
    (keep : String → Bool) (d : Fields)
    → has_empty_name d ≡ false
    → has_non_bool d ≡ false
    → (has_empty_name (filter_keys keep d) ≡ false) × (has_non_bool (filter_keys keep d) ≡ false)
unfolding has_empty_name has_non_bool filter_keys
filter-flags keep end h k = (refl, refl)
filter-flags keep (field n v rest) h k = ground (arith, filter-flags keep rest)

filter_keys_idem :
    (keep : String → Bool) (d : Fields) → filter_keys keep (filter_keys keep d) ≡ filter_keys keep d
unfolding filter_keys
filter_keys_idem keep end = refl
filter_keys_idem keep (field n v rest) = ground (arith, filter_keys_idem keep rest)

module _ (is_absolute is_within : String → Bool) where
  -- An accepted value is one of its class, and is accepted again as it is.
  abbrev Fine : Kind → Result Value → Type 0
  Fine k (ok w) = Holds k w × (validate_kind is_absolute is_within k w ≡ ok w)
  Fine k (err e) = Unit

  nonempty-Fine : (s : String) → Fine nonempty (validate_nonempty_string (str s))
  unfolding validate_kind validate_nonempty_string
  nonempty-Fine s = if_cases (Fine nonempty) (is_blank s) (λ b. tt) (λ b. (b, rw b))

  path-Fine : (s : String) → Fine db_path (validate_kind is_absolute is_within db_path (str s))
  unfolding validate_kind validate_nonempty_string resolve_db_path
  path-Fine s = elim (Bool-cases (is_blank s)) [
    | inl b ↦ rw b tt
    | inr b ↦ elim (Bool-cases (is_absolute s)) [
      | inl a ↦ rw (b, a) tt
      | inr a ↦ elim (Bool-cases (is_within s)) [
        | inl i ↦ rw (b, a, i) (b, rw (b, a, i))
        | inr i ↦ rw (b, a, i) tt
      ]
    ]
  ]

  count-Fine : (lo hi n : ℕ) → Fine (count lo hi) (validate_count lo hi (int (pos n)))
  unfolding validate_kind validate_count
  count-Fine lo hi n =
      if_cases (Fine (count lo hi)) (leb lo n && leb n hi)
        (λ b. ((ground arith, ground arith), rw b)) (λ b. tt)

  -- the value that an accepted timeout has
  seconds-Fine : (n : ℕ) → n ≤ 300 * unit → Fine timeout (ok (float (finite (pos n))))
  unfolding validate_kind validate_timeout
  seconds-Fine n h = (h, rw (le→leb n (300 * unit) h))

  int_timeout-Fine : (n : ℕ) → Fine timeout (validate_timeout (int (pos n)))
  unfolding validate_timeout
  int_timeout-Fine n = if_elim (Fine timeout) (too_large (pos n)) tt (
      if_cases (Fine timeout) (leb n 300)
        (λ b. seconds-Fine (n * unit) (grind (arith, leb→le n 300 b))) (λ b. tt))

  negative_timeout-Fine : (n : ℕ) → Fine timeout (validate_timeout (int (negsuc n)))
  unfolding validate_timeout
  negative_timeout-Fine n = if_elim (Fine timeout) (too_large (negsuc n)) tt tt

  float_timeout-Fine : (n : ℕ) → Fine timeout (validate_timeout (float (finite (pos n))))
  unfolding validate_timeout
  float_timeout-Fine n =
      if_cases (Fine timeout) (leb n (300 * unit)) (λ b. seconds-Fine n (leb→le n (300 * unit) b))
        (λ b. tt)

  features-Fine : (d : Fields) → Fine features (validate_features (dict d))
  unfolding validate_kind validate_features
  features-Fine d =
      if_cases (Fine features) (has_empty_name d) (λ b. tt)
        (λ b.
          if_cases (Fine features) (has_non_bool d) (λ c. tt)
            (λ c.
              let kept = filter-flags retained_flag d b c in
              (kept, rw (kept.0, kept.1, filter_keys_idem retained_flag d))))

  pub validate_kind-Fine : (k : Kind) (v : Value) → Fine k (validate_kind is_absolute is_within k v)
  unfolding validate_kind validate_nonempty_string validate_count validate_timeout validate_features
  validate_kind-Fine db_path (str s) = path-Fine s
  validate_kind-Fine nonempty (str s) = nonempty-Fine s
  validate_kind-Fine (count lo hi) (int (pos n)) = count-Fine lo hi n
  validate_kind-Fine timeout (int (pos n)) = int_timeout-Fine n
  validate_kind-Fine timeout (int (negsuc n)) = negative_timeout-Fine n
  validate_kind-Fine timeout (float (finite (pos n))) = float_timeout-Fine n
  validate_kind-Fine features (dict d) = features-Fine d
  validate_kind-Fine role null = (tt, refl)
  validate_kind-Fine role (str s) = (tt, refl)
  validate_kind-Fine schedule (str s) = (tt, refl)
  validate_kind-Fine switch (bool b) = (tt, refl)
  validate_kind-Fine k v = tt

-- What a computation that succeeds has gone through.
pub bind-ok-inv {ℓ κ} :
    {A : Type ℓ} {B : Type κ} (r : Result A) (f : A → Result B) {b : B}
    → (r >>= f) ≡ ok b
    → (a : A) × (r ≡ ok a) × (f a ≡ ok b)
bind-ok-inv (ok a) f h = (a, refl, h)
bind-ok-inv (err e) f h = cc

pub ok-inj {ℓ} : {A : Type ℓ} {a b : A} → ok a ≡ ok b → a ≡ b
ok-inj h = cc

-- Each key of a list stands in it once.
abbrev pub Distinct : List String → Type 0
Distinct [] = Unit
Distinct (k ∷ ks) = (member k ks ≡ false) × Distinct ks

member-other :
    (k j : String) (ks : List String)
    → member k ks ≡ false
    → member j ks ≡ true
    → str_eq k j ≡ false
member-other k j ks h m = elim (Bool-cases (str_eq k j)) [
  | inr no_match ↦ no_match
  | inl same ↦ let e = (eq_iff k j).0 same in absurd (cc (h, m, ap (λ x. member x ks) e))
]

member_head : (k : String) (ks : List String) → member k (k ∷ ks) ≡ true
unfolding member
member_head k ks = rw (str_eq_refl k)

pub config_keys-Distinct : Distinct config_keys
unfolding member
config_keys-Distinct = (
  refl,
  (
    refl,
    (
      refl,
      (
        refl,
        (
          refl,
          (
            refl,
            (
              refl,
              (refl, (refl, (refl, (refl, (refl, (refl, (refl, (refl, (refl, (refl, tt)))))))))),
            ),
          ),
        ),
      ),
    ),
  ),
)

-- The settings in order, each of its class.
abbrev pub Settled : List String → Fields → Type 0
Settled [] end = Unit
Settled [] (field j w rest) = ⊥
Settled (k ∷ ks) end = ⊥
Settled (k ∷ ks) (field j w rest) = (j ≡ k) × (Holds (kind_of k) w × Settled ks rest)

module _ (is_absolute is_within : String → Bool) where
  require-inv :
      (k : String) (values : Fields) (v : Value)
      → require is_absolute is_within k values ≡ ok v
      → get k values ≡ some v
  unfolding require
  require-inv k values v h = ground arith

  validate_field-again :
      (k : String) (v w : Value)
      → validate_field is_absolute is_within k v ≡ ok w
      → Holds (kind_of k) w × (validate_field is_absolute is_within k w ≡ ok w)
  unfolding validate_field
  validate_field-again k v w h =
      subst (Fine is_absolute is_within (kind_of k)) h
        (validate_kind-Fine is_absolute is_within (kind_of k) v)

  -- What a successful pass has read and made of its first key.
  keys-inv :
      (k : String) (ks : List String) (values c : Fields)
      → validate_keys is_absolute is_within (k ∷ ks) values ≡ ok c
      → (w : Value) × (rest : Fields) × Holds (kind_of k) w
        × (validate_field is_absolute is_within k w ≡ ok w)
        × (validate_keys is_absolute is_within ks values ≡ ok rest)
        × (field k w rest ≡ c)
  unfolding validate_keys
  keys-inv k ks values c h =
      let (v, p, q) = bind-ok-inv (require is_absolute is_within k values) _ h in
      let (w, f, g) = bind-ok-inv (validate_field is_absolute is_within k v) _ q in
      let (rest, t, u) = bind-ok-inv (validate_keys is_absolute is_within ks values) _ g in
      let again = validate_field-again k v w f in (w, rest, again.0, again.1, t, ok-inj u)

  pub validate_keys-Settled :
      (ks : List String) (values c : Fields)
      → validate_keys is_absolute is_within ks values ≡ ok c
      → Settled ks c
  validate_keys-Settled [] values c h = unfold validate_keys in subst (Settled []) (ok-inj h) tt
  validate_keys-Settled (k ∷ ks) values c h =
      let (w, rest, p, f, t, e) = keys-inv k ks values c h in
      subst (Settled (k ∷ ks)) e (refl, (p, validate_keys-Settled ks values rest t))

  get-behind :
      (k j : String) (w : Value) (rest : Fields)
      → str_eq k j ≡ false
      → get j (field k w rest) ≡ get j rest
  unfolding get
  get-behind k j w rest h = rw h

  get_head : (k : String) (w : Value) (rest : Fields) → get k (field k w rest) ≡ some w
  unfolding get
  get_head k w rest = rw (str_eq_refl k)

  require-some :
      (k : String) (values : Fields) (w : Value)
      → get k values ≡ some w
      → require is_absolute is_within k values ≡ ok w
  unfolding require
  require-some k values w g = ground arith

  validate_keys-step :
      (k : String) (ks : List String) (values rest : Fields) (w : Value)
      → get k values ≡ some w
      → validate_field is_absolute is_within k w ≡ ok w
      → validate_keys is_absolute is_within ks values ≡ ok rest
      → validate_keys is_absolute is_within (k ∷ ks) values ≡ ok (field k w rest)
  unfolding validate_keys
  validate_keys-step k ks values rest w g f t = rw (require-some k values w g, f, t)

  -- Values that read like a validated configuration are validated to it.
  pub validate_keys-again :
      (ks : List String) (values c values' : Fields)
      → Distinct ks
      → validate_keys is_absolute is_within ks values ≡ ok c
      → ((j : String) → member j ks ≡ true → get j values' ≡ get j c)
      → validate_keys is_absolute is_within ks values' ≡ ok c
  validate_keys-again [] values c values' d h same = unfold validate_keys in h
  validate_keys-again (k ∷ ks) values c values' d h same =
      let (w, rest, p, f, t, e) = keys-inv k ks values c h in
      let first = same k (member_head k ks) ∙ ap (get k) (sym e) ∙ get_head k w rest in
      let later = validate_keys-again ks values rest values' d.1 t (λ j m.
        same j (member-cons j k ks m)
        ∙ ap (get j) (sym e)
        ∙ get-behind k j w rest (member-other k j ks d.0 m)) in
      validate_keys-step k ks values' rest w first f later ∙ ap ok e

  -- A configuration that was validated holds in each setting a value of its class: a count in its
  -- range, a timeout of at most 300 seconds, a text that is not blank, flags that are booleans.
  pub validate_config_values-Settled :
      (values c : Fields)
      → validate_config_values is_absolute is_within values ≡ ok c
      → Settled config_keys c
  unfolding validate_config_values
  validate_config_values-Settled values c h = validate_keys-Settled config_keys values c h

  -- Validating a configuration that came out of the validation changes nothing.
  pub validate_config_values_idem :
      (values c : Fields)
      → validate_config_values is_absolute is_within values ≡ ok c
      → validate_config_values is_absolute is_within c ≡ ok c
  unfolding validate_config_values
  validate_config_values_idem values c h =
      validate_keys-again config_keys values c c config_keys-Distinct h (λ j m. refl)
