-- ===== src/Prefetch/Identity.antt =====
-- The identity of a request and its equality.
use hermes_cashew.Base.{
  ℕ, ◌≡◌, refl, Bool, true, false, ◌&&◌, List, [], ◌∷◌, Option, String, str_eq, eq_iff, ◌==◌,
  opt_eq, opt_eq_iff, arith, and-inv,
}
use hermes_cashew.Admission.Nested.{opt_text_eq, opt_text_eq_iff}

-- What the provider is at a moment: the path, the settings, the limit and the embedding runtime.
pub record Runtime : Type 0 where
  pub db_path : String
  pub config_fingerprint : String
  pub recall_limit : ℕ
  pub embedding_epoch : Option ℕ
  pub embedding_generation : Option String

-- What a retrieval asks for; the tags are sorted, each once.
pub record Scope : Type 0 where
  pub domain : Option String
  pub tag : Option String
  pub exclude_tags : List String

pub record Identity : Type 0 where
  pub generation : ℕ
  pub session_id : String
  pub runtime : Runtime
  pub scope : Scope

unfoldable pub texts_eq : List String → List String → Bool
texts_eq [] [] = true
texts_eq (s ∷ ss) (t ∷ ts) = str_eq s t && texts_eq ss ts
texts_eq ss ts = false

unfoldable pub identity_eq : Identity → Identity → Bool
unfolding texts_eq
identity_eq i j =
    (i.generation == j.generation)
    && (str_eq i.session_id j.session_id
        && (str_eq i.runtime.db_path j.runtime.db_path
            && (str_eq i.runtime.config_fingerprint j.runtime.config_fingerprint
                && ((i.runtime.recall_limit == j.runtime.recall_limit)
                    && (opt_eq i.runtime.embedding_epoch j.runtime.embedding_epoch
                        && (opt_text_eq i.runtime.embedding_generation
                              j.runtime.embedding_generation
                            && (opt_text_eq i.scope.domain j.scope.domain
                                && (opt_text_eq i.scope.tag j.scope.tag
                                    && texts_eq i.scope.exclude_tags j.scope.exclude_tags))))))))

texts_eq→same : (ss ts : List String) → texts_eq ss ts ≡ true → ss ≡ ts
unfolding texts_eq
texts_eq→same [] [] h = refl
texts_eq→same [] (t ∷ ts) h = cc
texts_eq→same (s ∷ ss) [] h = cc
texts_eq→same (s ∷ ss) (t ∷ ts) h =
    let (a, b) = and-inv (str_eq s t) (texts_eq ss ts) h in
    let e = (eq_iff s t).0 a in let es = texts_eq→same ss ts b in cc

eq→same : (m n : ℕ) → (m == n) ≡ true → m ≡ n
eq→same m n h = ground arith

-- Identities that compare equal are the same.
pub identity_eq→same : (i j : Identity) → identity_eq i j ≡ true → i ≡ j
unfolding identity_eq
identity_eq→same i j h =
    let (a, h1) = and-inv (i.generation == j.generation) _ h in
    let (b, h2) = and-inv (str_eq i.session_id j.session_id) _ h1 in
    let (c, h3) = and-inv (str_eq i.runtime.db_path j.runtime.db_path) _ h2 in
    let (d, h4) = and-inv (str_eq i.runtime.config_fingerprint j.runtime.config_fingerprint) _ h3 in
    let (e, h5) = and-inv (i.runtime.recall_limit == j.runtime.recall_limit) _ h4 in
    let (f, h6) = and-inv (opt_eq i.runtime.embedding_epoch j.runtime.embedding_epoch) _ h5 in
    let (g, h7) =
      and-inv (opt_text_eq i.runtime.embedding_generation j.runtime.embedding_generation) _ h6 in
    let (k, h8) = and-inv (opt_text_eq i.scope.domain j.scope.domain) _ h7 in
    let (l, m) = and-inv (opt_text_eq i.scope.tag j.scope.tag) _ h8 in
    let p1 = eq→same i.generation j.generation a in
    let p2 = (eq_iff i.session_id j.session_id).0 b in
    let p3 = (eq_iff i.runtime.db_path j.runtime.db_path).0 c in
    let p4 = (eq_iff i.runtime.config_fingerprint j.runtime.config_fingerprint).0 d in
    let p5 = eq→same i.runtime.recall_limit j.runtime.recall_limit e in
    let p6 = (opt_eq_iff i.runtime.embedding_epoch j.runtime.embedding_epoch).0 f in
    let p7 = (opt_text_eq_iff i.runtime.embedding_generation j.runtime.embedding_generation).0 g in
    let p8 = (opt_text_eq_iff i.scope.domain j.scope.domain).0 k in
    let p9 = (opt_text_eq_iff i.scope.tag j.scope.tag).0 l in
    let p10 = texts_eq→same i.scope.exclude_tags j.scope.exclude_tags m in cc
