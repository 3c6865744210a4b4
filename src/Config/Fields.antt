-- ===== src/Config/Fields.antt =====
-- The defaults, the classes of the keys, and the validation of a value.
use Prim.Native.Char.{code}
use hermes_cashew.Base.{
  ℕ, ◌*◌, Bool, true, false, not, ◌&&◌, ◌||◌, List, [], ◌∷◌, Option, none, some, String, str_eq,
  member, leb, ◌==◌, if◌then◌else◌,
}
use hermes_cashew.Base.Int.{pos, negsuc}
use hermes_cashew.Base.Value.{
  Value, null, bool, int, float, str, dict, Fields, end, field, get, filter_keys, finite,
}
use hermes_cashew.Telemetry.Buckets.{unit, too_large}

pub data ConfigError : Type 0 where
  -- ValueError, OverflowError, KeyError, the AssertionError on a key of no class, and the two
  -- refusals of an existing file
  invalid overflow missing_key unhandled not_json not_object : ConfigError

pub data Result {ℓ} (A : Type ℓ) : Type ℓ where
  ok : A → Result A
  err : ConfigError → Result A

infixl 5 ◌>>=◌
abbrev pub ◌>>=◌ {ℓ κ} : {A : Type ℓ} {B : Type κ} → Result A → (A → Result B) → Result B
ok a >>= f = f a
err e >>= f = err e

-- `DEFAULTS`, in its order. 30.0 is 30 units of a double.
unfoldable pub defaults : Fields
unfolding unit
defaults = field "cashew_db_path" (str "cashew/brain.db") (
    field "embedding_model" (str "thenlper/gte-large") (
      field "embedding_device" (str "cpu") (
        field "recall_k" (int (pos 5)) (
          field "sync_queue_timeout" (float (finite (pos (30 * unit)))) (
            field "user_domain" (str "user") (
              field "ai_domain" (str "ai") (
                field "auto_extraction" (bool true) (
                  field "think_cycles" (bool true) (
                    field "sleep_cycles" (bool true) (
                      field "llm_aux_role" (str "memory") (
                        field "think_interval" (int (pos 10)) (
                          field "prefetch_k" (int (pos 3)) (
                            field "prefetch_cues" (int (pos 3)) (
                              field "sleep_schedule" (str "every 12h") (
                                field "sleep_max_nodes" (int (pos 2000)) (
                                  field "_features"
                                    (dict (field "experimental_batch_sync" (bool false) end))
                                    end))))))))))))))))

-- the keys of `DEFAULTS`
abbrev pub config_keys : List String
config_keys =
    "cashew_db_path" ∷ "embedding_model" ∷ "embedding_device" ∷ "recall_k" ∷ "sync_queue_timeout"
    ∷ "user_domain" ∷ "ai_domain" ∷ "auto_extraction" ∷ "think_cycles" ∷ "sleep_cycles"
    ∷ "llm_aux_role" ∷ "think_interval" ∷ "prefetch_k" ∷ "prefetch_cues" ∷ "sleep_schedule"
    ∷ "sleep_max_nodes" ∷ "_features" ∷ []

abbrev pub removed_legacy_config_keys : List String
removed_legacy_config_keys =
    "default_domain" ∷ "auto_classify" ∷ "domain_classifications" ∷ "domain_separation_enabled"
    ∷ "token_budget" ∷ "walk_depth" ∷ "similarity_threshold" ∷ "access_weight" ∷ "temporal_weight"
    ∷ "clustering_eps" ∷ "clustering_min_samples" ∷ "novelty_threshold" ∷ "max_think_iterations"
    ∷ "think_cycle_nodes" ∷ "gc_mode" ∷ "gc_threshold" ∷ "gc_grace_days" ∷ "gc_protect_types"
    ∷ "gc_think_cycle_penalty" ∷ "decay_pruning" ∷ "pattern_detection" ∷ []

-- `_COUNT_RANGES.get(key)`
unfoldable pub count_range : String → Option (ℕ × ℕ)
count_range key =
    if str_eq key "recall_k"
    then some (1, 20)
    else if str_eq key "think_interval"
    then some (0, 10000)
    else if str_eq key "prefetch_k"
    then some (1, 20)
    else if str_eq key "prefetch_cues"
    then some (0, 20)
    else if str_eq key "sleep_max_nodes"
    then some (1, 2000)
    else none

abbrev pub bool_fields : List String
bool_fields = "auto_extraction" ∷ "think_cycles" ∷ "sleep_cycles" ∷ []

abbrev pub nonempty_string_fields : List String
nonempty_string_fields = "embedding_model" ∷ "embedding_device" ∷ "user_domain" ∷ "ai_domain" ∷ []

-- The code points that `str.strip` takes for white space.
unfoldable pub is_space : ℕ → Bool
is_space c =
    (leb 9 c && leb c 13)
    || ((leb 28 c && leb c 32)
        || (c == 133
            || (c == 160
                || (c == 5760
                    || ((leb 8192 c && leb c 8202)
                        || (c == 8232
                            || (c == 8233 || (c == 8239 || (c == 8287 || c == 12288)))))))))

-- `not value.strip()`
unfoldable pub is_blank : String → Bool
is_blank String.[] = true
is_blank (String.◌∷◌ c s) = is_space (code c) && is_blank s

unfoldable pub validate_nonempty_string : Value → Result Value
validate_nonempty_string (str s) = if is_blank s then err invalid else ok (str s)
validate_nonempty_string v = err invalid

-- of the range of the key
unfoldable pub validate_count : ℕ → ℕ → Value → Result Value
validate_count lower upper (int (pos n)) =
    if leb lower n && leb n upper then ok (int (pos n)) else err invalid
validate_count lower upper v = err invalid

-- `math.isfinite` of an integer that no double is near raises OverflowError.
unfoldable pub validate_timeout : Value → Result Value
validate_timeout (int (pos n)) =
    if too_large (pos n)
    then err overflow
    else if leb n 300
    then ok (float (finite (pos (n * unit))))
    else err invalid
validate_timeout (int (negsuc n)) = if too_large (negsuc n) then err overflow else err invalid
validate_timeout (float (finite (pos n))) =
    if leb n (300 * unit) then ok (float (finite (pos n))) else err invalid
validate_timeout v = err invalid

-- some flag has an empty name
unfoldable pub has_empty_name : Fields → Bool
has_empty_name end = false
has_empty_name (field k v rest) = str_eq k "" || has_empty_name rest

abbrev is_bool : Value → Bool
is_bool (bool b) = true
is_bool v = false

-- some flag is no boolean
unfoldable pub has_non_bool : Fields → Bool
has_non_bool end = false
has_non_bool (field k v rest) = not (is_bool v) || has_non_bool rest

abbrev pub retained_flag : String → Bool
retained_flag name = not (str_eq name "experimental_parallel_retrieval")

unfoldable pub validate_features : Value → Result Value
validate_features (dict d) =
    if has_empty_name d
    then err invalid
    else if has_non_bool d
    then err invalid
    else ok (dict (filter_keys retained_flag d))
validate_features v = err invalid

-- `config._features.get(flag, False)`
unfoldable pub is_feature_enabled : Fields → String → Bool
is_feature_enabled features flag = elim (get flag features) [ some (bool b) ↦ b | _ ↦ false ]

-- the class of a key
pub data Kind : Type 0 where
  db_path nonempty role schedule switch timeout features unhandled_key : Kind
  count : ℕ → ℕ → Kind

-- the tests that are left when the key has no range
other_kind : String → Kind
other_kind key =
    if str_eq key "sync_queue_timeout"
    then timeout
    else if str_eq key "_features"
    then features
    else unhandled_key

-- The tests of `_validate_field` on the key, in their order.
unfoldable pub kind_of : String → Kind
unfolding other_kind count_range
kind_of key =
    if str_eq key "cashew_db_path"
    then db_path
    else if member key nonempty_string_fields
    then nonempty
    else if str_eq key "llm_aux_role"
    then role
    else if str_eq key "sleep_schedule"
    then schedule
    else if member key bool_fields
    then switch
    else (elim (count_range key) [
      | some (lower, upper) ↦ count lower upper
      | none ↦ other_kind key
    ])

unfoldable pub validate_role : Value → Result Value
validate_role null = ok null
validate_role (str s) = ok (str s)
validate_role v = err invalid

unfoldable pub validate_text : Value → Result Value
validate_text (str s) = ok (str s)
validate_text v = err invalid

unfoldable pub validate_switch : Value → Result Value
validate_switch (bool b) = ok (bool b)
validate_switch v = err invalid

-- The host's file system: whether a path is absolute, and whether it resolves within the home.
module _ (is_absolute is_within : String → Bool) where
  unfoldable pub resolve_db_path : String → Result String
  resolve_db_path p =
      if is_absolute p then err invalid else if is_within p then ok p else err invalid

  -- the path is resolved for its check alone
  unfoldable pub check_path : Value → Result Value
  check_path (str p) = do resolved ← resolve_db_path p; ok (str p)
  check_path v = ok v

  unfoldable pub validate_kind : Kind → Value → Result Value
  unfolding validate_role validate_text validate_switch check_path
  validate_kind db_path v = do text ← validate_nonempty_string v; check_path text
  validate_kind nonempty v = validate_nonempty_string v
  validate_kind role v = validate_role v
  validate_kind schedule v = validate_text v
  validate_kind switch v = validate_switch v
  validate_kind (count lower upper) v = validate_count lower upper v
  validate_kind timeout v = validate_timeout v
  validate_kind features v = validate_features v
  validate_kind unhandled_key v = err unhandled

  unfoldable pub validate_field : String → Value → Result Value
  validate_field key v = validate_kind (kind_of key) v

  -- `values[key]`
  unfoldable pub require : String → Fields → Result Value
  require key values = elim (get key values) [ none ↦ err missing_key | some v ↦ ok v ]

  -- The comprehension of `_validate_config_values`, over the keys that are left.
  unfoldable pub validate_keys : List String → Fields → Result Fields
  unfolding require
  validate_keys [] values = ok end
  validate_keys (k ∷ ks) values = do
    v ← require k values
    w ← validate_field k v
    rest ← validate_keys ks values
    ok (field k w rest)

  unfoldable pub validate_config_values : Fields → Result Fields
  validate_config_values values = validate_keys config_keys values
