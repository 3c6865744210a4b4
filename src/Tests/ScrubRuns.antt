-- ===== src/Tests/ScrubRuns.antt =====
-- A record of the adapter with a private argument and an error.
use hermes_cashew.Base.{◌≡◌, refl, true, false, Bool, Option, none, some, String, member}
use hermes_cashew.Base.Int.{pos}
use hermes_cashew.Base.Value.{str, int, cons, nil}
use hermes_cashew.Scrub.Arguments.{
  tuple, redacted, safe_argument, safe_items, safe_arguments, is_env_name, matches_from, name_tail,
  name_rest, is_name_char,
}
use hermes_cashew.Scrub.Filter.{
  LogRecord, filter, is_owned_source, is_adapter_source, safe_error_class, suffix_of, template_of,
  adapter_arguments, scrubbed_error,
}
use hermes_cashew.Scrub.Clean.{IsScrubbed, filter-IsScrubbed}

abbrev inside : String → Option Bool
inside p = some true

abbrev outside : String → Option Bool
outside p = none

abbrev record_in : LogRecord
record_in = record {
  name = "plugins.memory.cashew.config";
  pathname = "config.py";
  msg = str "saved %s in %d";
  args = tuple (cons (str "/home/me") (cons (int (pos 3)) nil));
  error = some (record { class_name = "ValueError"; message = "secret" });
  exc_text = some "trace";
  stack_info = none;
  scrubbed = false;
}

abbrev record_out : LogRecord
record_out = record {
  name = "plugins.memory.cashew.config";
  pathname = "config.py";
  msg = str "saved %s in %d error=ValueError";
  args = tuple (cons redacted (cons (int (pos 3)) nil));
  error = some (record { class_name = "Exception"; message = "cashew error ValueError" });
  exc_text = none;
  stack_info = none;
  scrubbed = true;
}

filter_run : filter inside outside false record_in ≡ some record_out
unfolding filter is_owned_source is_adapter_source suffix_of template_of adapter_arguments
    scrubbed_error safe_error_class safe_arguments safe_items safe_argument is_env_name matches_from
    name_tail name_rest is_name_char member
filter_run = refl

owned_run : is_adapter_source inside outside record_in ≡ true
unfolding is_adapter_source
owned_run = refl

filter-IsScrubbed_example :
    IsScrubbed (is_adapter_source inside outside record_in) record_in record_out
filter-IsScrubbed_example =
    filter-IsScrubbed inside outside false record_in record_out refl refl filter_run
