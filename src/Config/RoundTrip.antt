-- ===== src/Config/RoundTrip.antt =====
-- What is saved is what is loaded, and a document keeps what the settings do not name.
use hermes_cashew.Base.{
  ◌≡◌, refl, sym, ap, subst, ◌∙◌, inl, inr, Bool, true, false, List, [], ◌∷◌, Option, none, some,
  String, str_eq, str_eq_sym, member, Bool-cases, if◌then◌else◌,
}
use hermes_cashew.Base.Value.{Value, dict, Fields, end, field, get, merge, filter_keys, has_key}
use hermes_cashew.Base.Dict.{
  Unique, Unique-merge, Unique-filter_keys, get-merge, get-filter_keys, get-absent, or_else,
}
use hermes_cashew.Config.Fields.{ok, ◌>>=◌, defaults, config_keys, validate_config_values}
use hermes_cashew.Config.Normal.{
  Settled, Distinct, bind-ok-inv, ok-inj, validate_keys-again, validate_config_values-Settled,
  config_keys-Distinct,
}
use hermes_cashew.Config.Files.{
  Document, missing, holds, Parsers, read_existing_config, merged_document, override_all, override,
  load_config, retained_key, known_key, saved_object,
}

pub has_key-Settled :
    (ks : List String) (c : Fields) (j : String) → Settled ks c → has_key j c ≡ member j ks
unfolding has_key member
has_key-Settled [] end j s = refl
has_key-Settled [] (field i w rest) j s = absurd s
has_key-Settled (k ∷ ks) end j s = absurd s
has_key-Settled (k ∷ ks) (field i w rest) j s =
    rw (s.0, has_key-Settled ks rest j s.1.1, str_eq_sym k j)

Settled-Unique : (ks : List String) (c : Fields) → Distinct ks → Settled ks c → Unique c
Settled-Unique [] end d s = tt
Settled-Unique [] (field i w rest) d s = absurd s
Settled-Unique (k ∷ ks) end d s = absurd s
Settled-Unique (k ∷ ks) (field i w rest) d s =
    (rw s.0 (has_key-Settled ks rest k s.1.1 ∙ d.0), Settled-Unique ks rest d.1 s.1.1)

get-there : (j : String) (d : Fields) → has_key j d ≡ true → (w : Value) × (get j d ≡ some w)
unfolding get has_key
get-there j end h = cc
get-there j (field k v rest) h = elim (Bool-cases (str_eq k j)) [
  | inl same ↦ (v, rw same)
  | inr other ↦ let (w, e) = get-there j rest (rw other at h) in (w, rw other e)
]

defaults-Unique : Unique defaults
unfolding defaults has_key
defaults-Unique = (
  refl,
  (
    refl,
    (
      refl,
      (
        refl,
        (
          refl,
          (
            refl,
            (
              refl,
              (refl, (refl, (refl, (refl, (refl, (refl, (refl, (refl, (refl, (refl, tt)))))))))),
            ),
          ),
        ),
      ),
    ),
  ),
)

-- the mapping of a document is a dictionary
abbrev pub IsDict : Document → Type 0
IsDict (holds (dict d)) = Unique d
IsDict d = Unit

read-Unique :
    (doc : Document) (d : Fields) → IsDict doc → read_existing_config doc ≡ ok d → Unique d
unfolding read_existing_config
read-Unique missing d u h = subst Unique (ok-inj h) tt
read-Unique (holds (dict e)) d u h = subst Unique (ok-inj h) u
read-Unique doc d u h = cc

keys : Fields → List String
keys end = []
keys (field k v rest) = k ∷ keys rest

has_key-keys : (d : Fields) (j : String) → has_key j d ≡ member j (keys d)
unfolding has_key keys member
has_key-keys end j = refl
has_key-keys (field k v rest) j = rw (str_eq_sym k j, has_key-keys rest j)

defaults-keys : (j : String) → has_key j defaults ≡ member j config_keys
defaults-keys j = has_key-keys defaults j ∙ ap (member j) (unfold keys defaults in refl)

defaults-unknown : (j : String) → known_key j ≡ false → get j defaults ≡ none
defaults-unknown j h = get-absent j defaults (defaults-keys j ∙ h)

or_else-none : (o : Option Value) → or_else o none ≡ o
or_else-none none = refl
or_else-none (some v) = refl

module _ (is_absolute is_within : String → Bool) where
  -- What a write is made of.
  saved_object-inv :
      (values : Fields) (doc : Document) (o : Fields)
      → saved_object is_absolute is_within values doc ≡ ok o
      → (existing : Fields) × (validated : Fields) × (read_existing_config doc ≡ ok existing)
        × (validate_config_values is_absolute is_within (
              merge
                (merge defaults (filter_keys retained_key existing))
                (filter_keys known_key values))
            ≡ ok validated)
        × (merge
              (merge
                (merge defaults (filter_keys retained_key existing))
                (filter_keys known_key values))
              validated
            ≡ o)
  unfolding saved_object
  saved_object-inv values doc o h =
      let (existing, r, q) = bind-ok-inv (read_existing_config doc) _ h in
      let (validated, v, e) = bind-ok-inv (validate_config_values is_absolute is_within _) _ q in
      (existing, validated, r, v, ok-inj e)

  validated-Unique :
      (values c : Fields) → validate_config_values is_absolute is_within values ≡ ok c → Unique c
  validated-Unique values c h =
      Settled-Unique config_keys c config_keys-Distinct
        (validate_config_values-Settled is_absolute is_within values c h)

  validated-there :
      (values c : Fields) (j : String)
      → validate_config_values is_absolute is_within values ≡ ok c
      → has_key j c ≡ known_key j
  validated-there values c j h =
      has_key-Settled config_keys c j
        (validate_config_values-Settled is_absolute is_within values c h)

  -- the updated settings under the validated ones
  get-laid_over :
      (values d c : Fields) (j : String)
      → validate_config_values is_absolute is_within values ≡ ok c
      → known_key j ≡ true
      → get j (merge d c) ≡ get j c
  get-laid_over values d c j h m =
      let (w, e) = get-there j c (validated-there values c j h ∙ m) in
      get-merge j d c (validated-Unique values c h) ∙ ap (λ o. or_else o (get j d)) e ∙ sym e

  saved_object-Unique :
      (values : Fields) (doc : Document) (o : Fields)
      → saved_object is_absolute is_within values doc ≡ ok o
      → Unique o
  saved_object-Unique values doc o h =
      let (existing, validated, r, v, e) = saved_object-inv values doc o h in
      subst Unique e (
        Unique-merge _ validated (
          Unique-merge _ (filter_keys known_key values)
            (Unique-merge defaults (filter_keys retained_key existing) defaults-Unique)))

  -- In the object that a save writes, a key that is no setting has the value that the file had
  -- for it, and a retired key is gone. The file and the given values hold each key once.
  pub get-saved_object-unknown :
      (values : Fields) (doc : Document) (existing o : Fields) (j : String)
      → IsDict doc
      → Unique values
      → read_existing_config doc ≡ ok existing
      → saved_object is_absolute is_within values doc ≡ ok o
      → known_key j ≡ false
      → get j o ≡ (if retained_key j then get j existing else none)
  get-saved_object-unknown values doc existing o j u w r h m =
      let (existing', validated, r', v, e) = saved_object-inv values doc o h in
      let same = ok-inj (sym r' ∙ r) in
      let kept = filter_keys retained_key existing' in
      let chosen = filter_keys known_key values in
      let none_validated = get-absent j validated (validated-there _ validated j v ∙ m) in
      let none_chosen =
        get-filter_keys known_key j values ∙ ap (λ b. if b then get j values else none) m in
      sym (ap (get j) e)
      ∙ get-merge j _ validated (validated-Unique _ validated v)
      ∙ ap (λ o. or_else o (get j (merge (merge defaults kept) chosen))) none_validated
      ∙ get-merge j (merge defaults kept) chosen (Unique-filter_keys known_key values w)
      ∙ ap (λ o. or_else o (get j (merge defaults kept))) none_chosen
      ∙ get-merge j defaults kept
          (Unique-filter_keys retained_key existing' (read-Unique doc existing' u r'))
      ∙ ap (or_else (get j kept)) (defaults-unknown j m)
      ∙ or_else-none (get j kept)
      ∙ get-filter_keys retained_key j existing'
      ∙ ap (λ d. if retained_key j then get j d else none) same

  -- A document whose settings are those of a validated configuration is validated to it.
  reads_validated :
      (values o c : Fields)
      → validate_config_values is_absolute is_within values ≡ ok c
      → Unique o
      → ((j : String) → known_key j ≡ true → get j o ≡ get j c)
      → validate_config_values is_absolute is_within (merge defaults o) ≡ ok c
  reads_validated values o c v u same =
      unfold validate_config_values in
      validate_keys-again is_absolute is_within config_keys values c (merge defaults o)
        config_keys-Distinct v
        (λ j m.
          let (w, e) = get-there j c (validated-there values c j v ∙ m) in
          get-merge j defaults o u ∙ ap (λ x. or_else x (get j defaults)) (same j m ∙ e) ∙ sym e)

  module _ (parsers : Parsers) where
    override_all-unset :
        (ks : List String) (d : Fields)
        → override_all is_absolute is_within parsers (λ k. none) ks d ≡ ok d
    unfolding override_all override
    override_all-unset [] d = refl
    override_all-unset (k ∷ ks) d = override_all-unset ks d

    load_config-unset :
        (d : Fields)
        → load_config is_absolute is_within parsers (λ k. none) (holds (dict d))
          ≡ validate_config_values is_absolute is_within (merge defaults d)
    unfolding load_config merged_document
    load_config-unset d =
        ap (λ r. r >>= validate_config_values is_absolute is_within)
          (override_all-unset config_keys (merge defaults d))

    -- The object that a save makes, of any values over any document, loads with no override in
    -- the environment, and each known setting is read back with the value in the object.
    pub load_config-saved_object :
        (values : Fields) (doc : Document) (o : Fields)
        → saved_object is_absolute is_within values doc ≡ ok o
        → (c : Fields) × (load_config is_absolute is_within parsers (λ k. none) (holds (dict o))
            ≡ ok c)
          × ((j : String) → known_key j ≡ true → get j c ≡ get j o)
    load_config-saved_object values doc o h =
        let (existing, validated, r, v, e) = saved_object-inv values doc o h in
        (
          validated,
          load_config-unset o
              ∙ reads_validated _ o validated v (saved_object-Unique values doc o h)
                  (λ j m. sym (ap (get j) e) ∙ get-laid_over _ _ validated j v m),
          λ j m. sym (get-laid_over _ _ validated j v m) ∙ ap (get j) e,
        )
