-- ===== src/Auxiliary/Role.antt =====
-- Which role of the host's profile is enabled, and the text of a response.
use hermes_cashew.Base.{
  Bool, true, false, not, ◌&&◌, List, [], ◌∷◌, Option, none, some, String, if◌then◌else◌,
}
use hermes_cashew.Base.Value.{Value, null, str, dict, Fields, get}
use hermes_cashew.Config.Fields.{is_blank}

abbrev pub text_fields : List String
text_fields = "base_url" ∷ "api_key" ∷ "key_env" ∷ "api_key_env" ∷ "api_mode" ∷ []

-- a text that is more than white space
abbrev pub selects : Option Value → Bool
selects (some (str s)) = not (is_blank s)
selects o = false

-- `"model" in mapping` asks for a text in it
abbrev pub selects_or_absent : Option Value → Bool
selects_or_absent none = true
selects_or_absent o = selects o

abbrev pub text_or_null : Option Value → Bool
text_or_null none = true
text_or_null (some null) = true
text_or_null (some (str s)) = true
text_or_null o = false

unfoldable pub texts_or_null : List String → Fields → Bool
texts_or_null [] m = true
texts_or_null (k ∷ ks) m = text_or_null (get k m) && texts_or_null ks m

unfoldable pub is_explicit : Fields → Bool
unfolding texts_or_null
is_explicit m =
    selects (get "provider" m) && (selects_or_absent (get "model" m) && texts_or_null text_fields m)

abbrev pub explicit_in : Option Value → Bool
explicit_in (some (dict m)) = is_explicit m
explicit_in o = false

abbrev pub role_in : String → Option Value → Bool
role_in role (some (dict auxiliary)) = explicit_in (get role auxiliary)
role_in role o = false

-- `none` where the profile of the host could not be read
unfoldable pub raw_role_mapping : String → Option Value → Bool
unfolding is_explicit
raw_role_mapping role (some (dict raw)) = role_in role (get "auxiliary" raw)
raw_role_mapping role o = false

-- The content of the first choice's message, `none` where the response has none.
unfoldable pub message_content : Option Value → String
message_content (some (str s)) = if is_blank s then "" else s
message_content o = ""
