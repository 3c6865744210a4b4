-- ===== src/Scrub/Arguments.antt =====
-- The arguments of a log record. A value of a class that is not among the dynamic values is like
-- null here: it is redacted.
use Prim.Native.Char.{code}
use hermes_cashew.Base.{
  ℕ, Bool, true, false, ◌&&◌, ◌||◌, List, [], ◌∷◌, Option, none, some, String, member, leb, ◌==◌,
  if◌then◌else◌,
}
use hermes_cashew.Base.Value.{
  Value, bool, int, float, str, seq, dict, Items, nil, cons, Fields, end, field,
}

abbrev pub name_prefix : List ℕ
name_prefix = 67 ∷ 65 ∷ 83 ∷ 72 ∷ 69 ∷ 87 ∷ 95 ∷ []

-- the class [A-Z0-9_]
unfoldable pub is_name_char : ℕ → Bool
is_name_char c = (leb 65 c && leb c 90) || ((leb 48 c && leb c 57) || (c == 95))

unfoldable pub name_rest : String → Bool
name_rest String.[] = true
name_rest (String.◌∷◌ c s) = is_name_char (code c) && name_rest s

-- one character of the class, and more of them
unfoldable pub name_tail : String → Bool
unfolding name_rest
name_tail String.[] = false
name_tail (String.◌∷◌ c s) = is_name_char (code c) && name_rest s

-- `_SAFE_ENV_NAME.fullmatch`: the codes of the prefix "CASHEW_", then the tail
unfoldable pub matches_from : List ℕ → String → Bool
unfolding name_tail
matches_from [] s = name_tail s
matches_from (p ∷ ps) String.[] = false
matches_from (p ∷ ps) (String.◌∷◌ c s) = (code c == p) && matches_from ps s

unfoldable pub is_env_name : String → Bool
is_env_name s = matches_from name_prefix s

abbrev pub redacted : Value
redacted = str "<redacted>"

unfoldable pub safe_argument : Value → Value
safe_argument (bool b) = bool b
safe_argument (int z) = int z
safe_argument (float x) = float x
safe_argument (str s) = if is_env_name s then str s else redacted
safe_argument v = redacted

unfoldable pub safe_items : Items → Items
safe_items nil = nil
safe_items (cons v vs) = cons (safe_argument v) (safe_items vs)

unfoldable pub safe_fields : Fields → Fields
safe_fields end = end
safe_fields (field k v rest) = field k (safe_argument v) (safe_fields rest)

-- A mapping, a tuple, or nothing of the two.
pub data Arguments : Type 0 where
  mapping : Fields → Arguments
  tuple : Items → Arguments
  no_arguments : Arguments

unfoldable pub safe_arguments : Arguments → Arguments
unfolding safe_items safe_fields
safe_arguments (mapping d) = mapping (safe_fields d)
safe_arguments (tuple vs) = tuple (safe_items vs)
safe_arguments no_arguments = tuple nil

abbrev pub safe_embed_operations : List String
safe_embed_operations = "start" ∷ "encode" ∷ "close" ∷ []

abbrev pub safe_embed_reasons : List String
safe_embed_reasons =
    "busy" ∷ "closed" ∷ "exited" ∷ "owned" ∷ "protocol" ∷ "startup" ∷ "timeout" ∷ []

abbrev pub safe_identity_states : List String
safe_identity_states = "could not be verified" ∷ "inspection deferred" ∷ []

-- `v if v in allowed else "<redacted>"`; a list or a dictionary cannot be looked up in a set, and
-- raises TypeError, which is `none`.
unfoldable pub safe_word : List String → Value → Option Value
safe_word allowed (str s) = some (if member s allowed then str s else redacted)
safe_word allowed (seq vs) = none
safe_word allowed (dict d) = none
safe_word allowed v = some redacted

abbrev pub failure_tuple :
    Value → Value → Value → Value → Value → Option Value → Option Value → Option Arguments
failure_tuple generation count exit_code elapsed r none reason = none
failure_tuple generation count exit_code elapsed r (some operation) none = none
failure_tuple generation count exit_code elapsed r (some operation) (some reason) = some (
    tuple (
      cons operation (
        cons (safe_argument generation) (
          cons r (
            cons r (
              cons r (
                cons r (
                  cons (safe_argument count) (
                    cons reason
                      (cons (safe_argument exit_code) (cons (safe_argument elapsed) nil)))))))))))

unfoldable pub safe_embedding_failure_arguments : Arguments → Option Arguments
unfolding safe_arguments safe_word
safe_embedding_failure_arguments
      (tuple (
        cons operation (
          cons generation (
            cons model (
              cons requested (
                cons effective (
                  cons request
                    (cons count (cons reason (cons exit_code (cons elapsed nil))))))))))) =
    failure_tuple generation count exit_code elapsed redacted
      (safe_word safe_embed_operations operation) (safe_word safe_embed_reasons reason)
safe_embedding_failure_arguments a = some (safe_arguments a)

abbrev pub identity_tuple : Option Value → Option Arguments
identity_tuple none = none
identity_tuple (some state) = some (tuple (cons state (cons redacted nil)))

unfoldable pub safe_identity_lock_arguments : Arguments → Option Arguments
unfolding safe_arguments safe_word
safe_identity_lock_arguments (tuple (cons state (cons path nil))) =
    identity_tuple (safe_word safe_identity_states state)
safe_identity_lock_arguments a = some (safe_arguments a)
