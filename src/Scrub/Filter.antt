-- ===== src/Scrub/Filter.antt =====
-- `ScrubFilter.filter` on one record. Where a source file lies is for pathlib to say: `in_package` and
-- `in_upstream` answer for a resolved path, `none` for OSError and ValueError.
use text.Mathlib.Text.{starts_with}
use Prim.Native.String.{◌++◌}
use hermes_cashew.Base.{
  Bool, true, false, not, ◌&&◌, ◌||◌, Option, none, some, String, member, if◌then◌else◌,
}
use hermes_cashew.Base.Value.{Value, str}
use hermes_cashew.Telemetry.Events.{safe_error_classes}
use hermes_cashew.Scrub.Arguments.{
  Arguments, no_arguments, safe_arguments, safe_embedding_failure_arguments,
  safe_identity_lock_arguments,
}

-- An exception by the name of its class and its message.
pub record Raised : Type 0 where
  pub class_name : String
  pub message : String

pub record LogRecord : Type 0 where
  pub name : String
  pub pathname : String
  pub msg : Value
  pub args : Arguments
  pub error : Option Raised
  pub exc_text : Option String
  pub stack_info : Option String
  pub scrubbed : Bool

unfoldable pub safe_error_class : Raised → String
safe_error_class e = if member e.class_name safe_error_classes then e.class_name else "Exception"

unfoldable pub suffix_of : Option Raised → String
unfolding safe_error_class
suffix_of none = ""
suffix_of (some e) = " error=" ++ safe_error_class e

unfoldable pub template_of : Value → String
template_of (str s) = s
template_of v = ""

-- the arguments of a record of the adapter, by its template
unfoldable pub adapter_arguments : String → Arguments → Option Arguments
unfolding safe_embedding_failure_arguments safe_identity_lock_arguments safe_arguments
adapter_arguments template a =
    if starts_with template "embedding worker failure:"
    then safe_embedding_failure_arguments a
    else if starts_with template "embedding identity %s; unable to acquire"
    then safe_identity_lock_arguments a
    else some (safe_arguments a)

unfoldable pub scrubbed_error : Option Raised → Option Raised
unfolding safe_error_class
scrubbed_error none = none
scrubbed_error (some e) =
    some (record { class_name = "Exception"; message = "cashew error " ++ safe_error_class e })

-- the last lines of the method
abbrev pub finished : LogRecord → String → Arguments → LogRecord
finished r msg args = record r {
  msg = str msg;
  args = args;
  error = scrubbed_error r.error;
  exc_text = none;
  stack_info = none;
  scrubbed = true;
}

abbrev pub with_arguments : LogRecord → String → Option Arguments → Option LogRecord
with_arguments r msg none = none
with_arguments r msg (some args) = some (finished r msg args)

abbrev pub answers : Option Bool → Bool
answers none = false
answers (some b) = b

module _ (in_package in_upstream : String → Option Bool) where
  unfoldable pub is_owned_source : LogRecord → Bool
  is_owned_source r = answers (in_package r.pathname) || answers (in_upstream r.pathname)

  unfoldable pub is_adapter_source : LogRecord → Bool
  is_adapter_source r =
      starts_with r.name "plugins.memory.cashew" && answers (in_package r.pathname)

  -- `none` where the method raises; it never holds a record back
  unfoldable pub filter : Bool → LogRecord → Option LogRecord
  unfolding is_owned_source is_adapter_source suffix_of template_of adapter_arguments scrubbed_error
  filter source_scoped r =
      let template = template_of r.msg in
      let suffix = suffix_of r.error in
      if r.scrubbed
      then some r
      else if source_scoped && not (is_owned_source r)
      then some r
      else if is_adapter_source r
      then with_arguments r (template ++ suffix) (adapter_arguments template r.args)
      else some (finished r ("cashew local log event" ++ suffix) no_arguments)
