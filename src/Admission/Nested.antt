-- ===== src/Admission/Nested.antt =====
-- The guards of `admit_operation`, and the reuse of an admission that is in force.
use hermes_cashew.Base.{
  ℕ, ◌≡◌, ◌↔◌, ◌⊎◌, refl, Bool, true, false, not, ◌&&◌, ◌||◌, Option, none, some, String, str_eq,
  eq_iff, opt_eq, opt_eq_iff, is_some, if◌then◌else◌, arith, ap, sym, ◌∙◌, All, List, [], ◌∷◌,
}
use hermes_cashew.Admission.{
  OperationAdmission, Request, AdmissionError, no_identity, same_lock_file, identity_mismatch,
  model_mismatch, dimension_mismatch, vec_mismatch, epoch_mismatch, supervisor_mismatch,
  generation_mismatch, cache_upgrade, graph_upgrade,
}

abbrev pub opt_text_eq : Option String → Option String → Bool
opt_text_eq none none = true
opt_text_eq none (some b) = false
opt_text_eq (some a) none = false
opt_text_eq (some a) (some b) = str_eq a b

pub opt_text_eq_iff : (a b : Option String) → (opt_text_eq a b ≡ true) ↔ (a ≡ b)
opt_text_eq_iff none none = ground arith
opt_text_eq_iff none (some b) = ground arith
opt_text_eq_iff (some a) none = ground arith
opt_text_eq_iff (some a) (some b) = (λ h. ap some ((eq_iff a b).0 h), λ h. (eq_iff a b).1 (cc h))

-- the two tests in front of everything else
unfoldable pub identity_error : Request → Option AdmissionError
identity_error r =
    if not (is_some r.graph) && not (is_some r.cache)
    then some no_identity
    else if is_some r.graph && opt_text_eq r.cache r.graph
    then some same_lock_file
    else none

-- `value is not None and parent.field != value`
abbrev differs_text : Option String → Option String → Bool
differs_text value own = is_some value && not (opt_text_eq own value)

abbrev differs : Option ℕ → Option ℕ → Bool
differs value own = is_some value && not (opt_eq own value)

unfoldable pub nested_error : OperationAdmission → Request → Option AdmissionError
nested_error parent r =
    if not (opt_text_eq parent.graph_path r.graph) || not (opt_text_eq parent.cache_path r.cache)
    then some identity_mismatch
    else if differs_text r.model parent.model
    then some model_mismatch
    else if differs r.embedding_dim parent.embedding_dim
    then some dimension_mismatch
    else if differs r.vec_dim parent.vec_dim
    then some vec_mismatch
    else if differs r.epoch parent.epoch
    then some epoch_mismatch
    else if differs r.supervisor parent.supervisor
    then some supervisor_mismatch
    else if differs_text r.embedding_generation parent.embedding_generation
    then some generation_mismatch
    else if r.cache_exclusive && not parent.cache_exclusive
    then some cache_upgrade
    else if r.exclusive && not parent.exclusive
    then some graph_upgrade
    else none

-- A value that a request names is the parent's.
abbrev pub Agrees {ℓ} : {A : Type ℓ} → Option A → Option A → Type ℓ
Agrees value own = (value ≡ none) ⊎ (own ≡ value)

-- What a nested operation may rely on: the token's fields. After an admission of the cache alone
-- the token's `exclusive` is false, whatever was asked.
pub record Covers (parent : OperationAdmission) (r : Request) : Type 0 where
  pub graph : parent.graph_path ≡ r.graph
  pub cache : parent.cache_path ≡ r.cache
  pub model : Agrees r.model parent.model
  pub embedding_dim : Agrees r.embedding_dim parent.embedding_dim
  pub vec_dim : Agrees r.vec_dim parent.vec_dim
  pub epoch : Agrees r.epoch parent.epoch
  pub supervisor : Agrees r.supervisor parent.supervisor
  pub generation : Agrees r.embedding_generation parent.embedding_generation
  pub exclusive : r.exclusive ≡ true → parent.exclusive ≡ true
  pub cache_exclusive : r.cache_exclusive ≡ true → parent.cache_exclusive ≡ true

differs_iff : (value own : Option ℕ) → (differs value own ≡ false) ↔ Agrees value own
differs_iff none own = ground arith
differs_iff (some v) own = ground (arith, opt_eq_iff own (some v))

differs_text_iff : (value own : Option String) → (differs_text value own ≡ false) ↔ Agrees value own
differs_text_iff none own = ground arith
differs_text_iff (some v) own = ground (arith, opt_text_eq_iff own (some v))

-- A ladder of guards, read as a list.
abbrev Guards : Type 0
Guards = List (Bool × AdmissionError)

abbrev first_error : Guards → Option AdmissionError
first_error [] = none
first_error ((b, e) ∷ rest) = if b then some e else first_error rest

first_error_iff : (l : Guards) → (first_error l ≡ none) ↔ All (λ g. g.0 ≡ false) l
first_error_iff [] = (λ h. tt, λ h. refl)
first_error_iff ((true, e) ∷ rest) = ground arith
first_error_iff ((false, e) ∷ rest) =
    let ih = first_error_iff rest in (λ h. (refl, ih.0 h), λ h. ih.1 h.1)

module _ (parent : OperationAdmission) (r : Request) where
  guards : Guards
  guards =
      (
        not (opt_text_eq parent.graph_path r.graph) || not (opt_text_eq parent.cache_path r.cache),
        identity_mismatch,
      )
      ∷ (differs_text r.model parent.model, model_mismatch)
      ∷ (differs r.embedding_dim parent.embedding_dim, dimension_mismatch)
      ∷ (differs r.vec_dim parent.vec_dim, vec_mismatch)
      ∷ (differs r.epoch parent.epoch, epoch_mismatch)
      ∷ (differs r.supervisor parent.supervisor, supervisor_mismatch)
      ∷ (differs_text r.embedding_generation parent.embedding_generation, generation_mismatch)
      ∷ (r.cache_exclusive && not parent.cache_exclusive, cache_upgrade)
      ∷ (r.exclusive && not parent.exclusive, graph_upgrade)
      ∷ []

  nested_error-guards : nested_error parent r ≡ first_error guards
  unfolding nested_error guards
  nested_error-guards = refl

  paths_iff :
      (not (opt_text_eq parent.graph_path r.graph) || not (opt_text_eq parent.cache_path r.cache)
        ≡ false)
      ↔ ((parent.graph_path ≡ r.graph) × (parent.cache_path ≡ r.cache))
  paths_iff =
      ground (
        arith,
        opt_text_eq_iff parent.graph_path r.graph,
        opt_text_eq_iff parent.cache_path r.cache,
      )

  Covers-guards : Covers parent r → All (λ g. g.0 ≡ false) guards
  unfolding guards
  Covers-guards c = (
    paths_iff.1 (c.graph, c.cache),
    (
      (differs_text_iff r.model parent.model).1 c.model,
      (
        (differs_iff r.embedding_dim parent.embedding_dim).1 c.embedding_dim,
        (
          (differs_iff r.vec_dim parent.vec_dim).1 c.vec_dim,
          (
            (differs_iff r.epoch parent.epoch).1 c.epoch,
            (
              (differs_iff r.supervisor parent.supervisor).1 c.supervisor,
              (
                (differs_text_iff r.embedding_generation parent.embedding_generation).1
                    c.generation,
                (ground (arith, c.cache_exclusive), (ground (arith, c.exclusive), tt)),
              ),
            ),
          ),
        ),
      ),
    ),
  )

  guards-Covers : All (λ g. g.0 ≡ false) guards → Covers parent r
  unfolding guards
  guards-Covers (p, (m, (e, (v, (n, (s, (g, (c, (x, _))))))))) = record {
    graph = (paths_iff.0 p).0;
    cache = (paths_iff.0 p).1;
    model = (differs_text_iff r.model parent.model).0 m;
    embedding_dim = (differs_iff r.embedding_dim parent.embedding_dim).0 e;
    vec_dim = (differs_iff r.vec_dim parent.vec_dim).0 v;
    epoch = (differs_iff r.epoch parent.epoch).0 n;
    supervisor = (differs_iff r.supervisor parent.supervisor).0 s;
    generation = (differs_text_iff r.embedding_generation parent.embedding_generation).0 g;
    exclusive = ground arith;
    cache_exclusive = ground arith;
  }

  -- A nested operation is let in exactly when its request has the paths of the token in force,
  -- names no identity but the token's, and sets neither of the flags exclusive and
  -- cache_exclusive where the token's flag of that name is not set.
  pub nested_error_iff : (nested_error parent r ≡ none) ↔ Covers parent r
  nested_error_iff =
      let ladder = first_error_iff guards in
      (
        λ h. guards-Covers (ladder.0 (sym nested_error-guards ∙ h)),
        λ c. nested_error-guards ∙ ladder.1 (Covers-guards c),
      )
