-- ===== src/Scrub/Clean.antt =====
-- What a scrubbed record can say.
use text.Mathlib.Text.{starts_with}
use Prim.Native.String.{◌++◌}
use hermes_cashew.Base.{
  ◌≡◌, refl, subst, ◌⊎◌, inl, inr, Bool, true, false, not, ◌&&◌, ◌||◌, List, [], ◌∷◌, Option, none,
  some, String, member, if◌then◌else◌, arith, if_elim, if_cases, Bool-cases,
}
use hermes_cashew.Base.Value.{
  Value, bool, int, float, str, seq, dict, Items, nil, cons, Fields, end, field,
}
use hermes_cashew.Telemetry.Events.{safe_error_classes}
use hermes_cashew.Scrub.Arguments.{
  is_env_name, redacted, safe_argument, safe_items, safe_fields, Arguments, mapping, tuple,
  no_arguments, safe_arguments, safe_embed_operations, safe_embed_reasons, safe_identity_states,
  safe_word, failure_tuple, identity_tuple, safe_embedding_failure_arguments,
  safe_identity_lock_arguments,
}
use hermes_cashew.Scrub.Filter.{
  Raised, LogRecord, safe_error_class, suffix_of, template_of, adapter_arguments, scrubbed_error,
  finished, with_arguments, is_owned_source, is_adapter_source, filter,
}

-- The texts that an argument may be, besides the name of a setting's variable.
abbrev pub fixed_words : List String
fixed_words =
    "<redacted>" ∷ "start" ∷ "encode" ∷ "close" ∷ "busy" ∷ "closed" ∷ "exited" ∷ "owned"
    ∷ "protocol" ∷ "startup" ∷ "timeout" ∷ "could not be verified" ∷ "inspection deferred" ∷ []

-- A number, a Boolean, the name of a variable, or a fixed word.
abbrev pub CleanValue : Value → Type 0
CleanValue (bool b) = Unit
CleanValue (int z) = Unit
CleanValue (float x) = Unit
CleanValue (str s) = is_env_name s || member s fixed_words ≡ true
CleanValue v = ⊥

abbrev pub CleanItems : Items → Type 0
CleanItems nil = Unit
CleanItems (cons v vs) = CleanValue v × CleanItems vs

abbrev pub CleanFields : Fields → Type 0
CleanFields end = Unit
CleanFields (field k v rest) = CleanValue v × CleanFields rest

abbrev pub CleanArguments : Arguments → Type 0
CleanArguments (mapping d) = CleanFields d
CleanArguments (tuple vs) = CleanItems vs
CleanArguments no_arguments = Unit

redacted-CleanValue : CleanValue redacted
unfolding member
redacted-CleanValue = ground arith

safe_argument-CleanValue : (v : Value) → CleanValue (safe_argument v)
unfolding safe_argument
safe_argument-CleanValue (bool b) = tt
safe_argument-CleanValue (int z) = tt
safe_argument-CleanValue (float x) = tt
safe_argument-CleanValue (str s) =
    if_cases CleanValue (is_env_name s) (λ h. rw h refl) (λ h. redacted-CleanValue)
safe_argument-CleanValue v = redacted-CleanValue

safe_items-CleanItems : (vs : Items) → CleanItems (safe_items vs)
unfolding safe_items
safe_items-CleanItems nil = tt
safe_items-CleanItems (cons v vs) = (safe_argument-CleanValue v, safe_items-CleanItems vs)

safe_fields-CleanFields : (d : Fields) → CleanFields (safe_fields d)
unfolding safe_fields
safe_fields-CleanFields end = tt
safe_fields-CleanFields (field k v rest) =
    (safe_argument-CleanValue v, safe_fields-CleanFields rest)

safe_arguments-CleanArguments : (a : Arguments) → CleanArguments (safe_arguments a)
unfolding safe_arguments
safe_arguments-CleanArguments (mapping d) = safe_fields-CleanFields d
safe_arguments-CleanArguments (tuple vs) = safe_items-CleanItems vs
safe_arguments-CleanArguments no_arguments = tt

-- what an optional value or tuple must be, if it is there
abbrev CleanOr : Option Value → Type 0
CleanOr none = Unit
CleanOr (some v) = CleanValue v

abbrev CleanArgumentsOr : Option Arguments → Type 0
CleanArgumentsOr none = Unit
CleanArgumentsOr (some a) = CleanArguments a

-- a list of words that are all fixed
abbrev Fixed : List String → Type 0
Fixed allowed = (s : String) → member s allowed ≡ true → member s fixed_words ≡ true

safe_word-CleanOr :
    (allowed : List String) (v : Value) → Fixed allowed → CleanOr (safe_word allowed v)
unfolding safe_word
safe_word-CleanOr allowed (str s) f =
    if_cases CleanValue (member s allowed) (λ h. let m = f s h in ground arith)
      (λ h. redacted-CleanValue)
safe_word-CleanOr allowed (seq vs) f = tt
safe_word-CleanOr allowed (dict d) f = tt
safe_word-CleanOr allowed v f = redacted-CleanValue

operations-Fixed : Fixed safe_embed_operations
unfolding member
operations-Fixed s h = ground arith

reasons-Fixed : Fixed safe_embed_reasons
unfolding member
reasons-Fixed s h = ground arith

states-Fixed : Fixed safe_identity_states
unfolding member
states-Fixed s h = ground arith

failure_tuple-CleanArgumentsOr :
    (g c x e : Value) (o r : Option Value)
    → CleanOr o
    → CleanOr r
    → CleanArgumentsOr (failure_tuple g c x e redacted o r)
failure_tuple-CleanArgumentsOr g c x e none r p q = tt
failure_tuple-CleanArgumentsOr g c x e (some o) none p q = tt
failure_tuple-CleanArgumentsOr g c x e (some o) (some r) p q = (
  p,
  (
    safe_argument-CleanValue g,
    (
      redacted-CleanValue,
      (
        redacted-CleanValue,
        (
          redacted-CleanValue,
          (
            redacted-CleanValue,
            (
              safe_argument-CleanValue c,
              (q, (safe_argument-CleanValue x, (safe_argument-CleanValue e, tt))),
            ),
          ),
        ),
      ),
    ),
  ),
)

identity_tuple-CleanArgumentsOr :
    (o : Option Value) → CleanOr o → CleanArgumentsOr (identity_tuple o)
identity_tuple-CleanArgumentsOr none p = tt
identity_tuple-CleanArgumentsOr (some v) p = (p, (redacted-CleanValue, tt))

failure-CleanArgumentsOr : (a : Arguments) → CleanArgumentsOr (safe_embedding_failure_arguments a)
unfolding safe_embedding_failure_arguments
failure-CleanArgumentsOr
      (tuple (
        cons operation (
          cons generation (
            cons model (
              cons requested (
                cons effective (
                  cons request
                    (cons count (cons reason (cons exit_code (cons elapsed nil))))))))))) =
    failure_tuple-CleanArgumentsOr generation count exit_code elapsed _ _
      (safe_word-CleanOr safe_embed_operations operation operations-Fixed)
      (safe_word-CleanOr safe_embed_reasons reason reasons-Fixed)
failure-CleanArgumentsOr a = safe_arguments-CleanArguments a

identity-CleanArgumentsOr : (a : Arguments) → CleanArgumentsOr (safe_identity_lock_arguments a)
unfolding safe_identity_lock_arguments
identity-CleanArgumentsOr (tuple (cons state (cons path nil))) =
    identity_tuple-CleanArgumentsOr _ (safe_word-CleanOr safe_identity_states state states-Fixed)
identity-CleanArgumentsOr a = safe_arguments-CleanArguments a

adapter_arguments-CleanArgumentsOr :
    (template : String) (a : Arguments) → CleanArgumentsOr (adapter_arguments template a)
unfolding adapter_arguments
adapter_arguments-CleanArgumentsOr template a =
    if_elim CleanArgumentsOr (starts_with template "embedding worker failure:")
      (failure-CleanArgumentsOr a)
      (if_elim CleanArgumentsOr (starts_with template "embedding identity %s; unable to acquire")
        (identity-CleanArgumentsOr a) (safe_arguments-CleanArguments a))

-- The names of exception classes that a record may show.
abbrev pub SafeSuffix : String → Type 0
SafeSuffix s =
    (s ≡ "") ⊎ ((c : String) × (member c safe_error_classes ≡ true) × (s ≡ " error=" ++ c))

abbrev pub SafeError : Option Raised → Type 0
SafeError none = Unit
SafeError (some e) =
    (e.class_name ≡ "Exception")
    × ((c : String) × (member c safe_error_classes ≡ true) × (e.message ≡ "cashew error " ++ c))

-- What a scrubbed record says: for a record of the adapter its own template, for any other a fixed
-- text, with no more than the class of the error behind it.
pub record IsScrubbed (adapter : Bool) (r s : LogRecord) : Type 0 where
  pub args : CleanArguments s.args
  pub message :
      (t : String) × SafeSuffix t
      × (s.msg ≡ str ((if adapter then template_of r.msg else "cashew local log event") ++ t))
  pub error : SafeError s.error
  pub exc_text : s.exc_text ≡ none
  pub stack_info : s.stack_info ≡ none
  pub scrubbed : s.scrubbed ≡ true

safe_error_class-member : (e : Raised) → member (safe_error_class e) safe_error_classes ≡ true
unfolding safe_error_class
safe_error_class-member e =
    if_cases (λ (c : String). member c safe_error_classes ≡ true)
      (member e.class_name safe_error_classes) (λ h. h) (λ h. unfold member in refl)

suffix_of-SafeSuffix : (o : Option Raised) → SafeSuffix (suffix_of o)
unfolding suffix_of
suffix_of-SafeSuffix none = inl refl
suffix_of-SafeSuffix (some e) = inr (safe_error_class e, safe_error_class-member e, refl)

scrubbed_error-SafeError : (o : Option Raised) → SafeError (scrubbed_error o)
unfolding scrubbed_error
scrubbed_error-SafeError none = tt
scrubbed_error-SafeError (some e) = (refl, (safe_error_class e, safe_error_class-member e, refl))

finished-IsScrubbed :
    (adapter : Bool) (r : LogRecord) (a : Arguments)
    → CleanArguments a
    → IsScrubbed adapter r (
        finished r
          ((if adapter then template_of r.msg else "cashew local log event") ++ suffix_of r.error)
          a)
finished-IsScrubbed adapter r a c = record {
  args = c;
  message = (suffix_of r.error, suffix_of-SafeSuffix r.error, refl);
  error = scrubbed_error-SafeError r.error;
  exc_text = refl;
  stack_info = refl;
  scrubbed = refl;
}

with_arguments-IsScrubbed :
    (r s : LogRecord) (o : Option Arguments)
    → CleanArgumentsOr o
    → with_arguments r (template_of r.msg ++ suffix_of r.error) o ≡ some s
    → IsScrubbed true r s
with_arguments-IsScrubbed r s none c h = cc
with_arguments-IsScrubbed r s (some a) c h =
    let e : finished r (template_of r.msg ++ suffix_of r.error) a ≡ s = cc in
    subst (IsScrubbed true r) e (finished-IsScrubbed true r a c)

some-inj : {a b : LogRecord} → some a ≡ some b → a ≡ b
some-inj h = cc

module _ (in_package in_upstream : String → Option Bool) where
  -- A record that has not been scrubbed and is in the filter's scope comes out, unless the filter
  -- raises, with each value of its arguments a number, a Boolean, the name of a setting's
  -- variable or a fixed word; with the adapter's own template, or a fixed text for any other
  -- source, and no more of an error than a safe class name; and with no traceback text.
  pub filter-IsScrubbed :
      (source_scoped : Bool) (r s : LogRecord)
      → r.scrubbed ≡ false
      → source_scoped && not (is_owned_source in_package in_upstream r) ≡ false
      → filter in_package in_upstream source_scoped r ≡ some s
      → IsScrubbed (is_adapter_source in_package in_upstream r) r s
  unfolding filter
  filter-IsScrubbed source_scoped r s f o h =
      elim (Bool-cases (is_adapter_source in_package in_upstream r)) [
        | inl own ↦ rw own (
            with_arguments-IsScrubbed r s (adapter_arguments (template_of r.msg) r.args)
              (adapter_arguments-CleanArgumentsOr (template_of r.msg) r.args) (rw (f, o, own) at h))
        | inr foreign ↦ rw foreign (
            subst (IsScrubbed false r) (some-inj (rw (f, o, foreign) at h))
              (finished-IsScrubbed false r no_arguments tt))
      ]
