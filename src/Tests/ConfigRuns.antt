-- ===== src/Tests/ConfigRuns.antt =====
-- The default settings, saved and loaded with a relative path allowed. No text is a number here.
use hermes_cashew.Base.{◌≡◌, ◌≤◌, ◌+◌, refl, Bool, true, false, Option, some, none, String, member}
use hermes_cashew.Base.Value.{dict, str, Fields, end, field, get, put, merge, filter_keys}
use hermes_cashew.Config.Fields.{
  ok, defaults, config_keys, validate_config_values, validate_keys, validate_field, validate_kind,
  require, kind_of, count_range, validate_nonempty_string, is_blank, is_space, check_path,
  resolve_db_path, validate_count, validate_timeout, validate_features, has_empty_name,
  has_non_bool, validate_role, validate_text, validate_switch,
}
use hermes_cashew.Config.Normal.{
  Settled, validate_config_values-Settled, validate_config_values_idem,
}
use hermes_cashew.Config.Files.{
  holds, Parsers, Disk, Stop, Point, raises, at_replace, attempt, read_existing_config, known_key,
  saved_object, save_config, load_config, atomic_write_config, write_object, merged_document,
  override_all, override, load_effective_config_snapshot,
}
use hermes_cashew.Config.Save.{
  IsHandled, IsOldOrNew, save_config-atomic, load_config-save_config, load_config-Settled,
  load_effective_config_snapshot-validated,
}

abbrev parsers : Parsers
parsers = record {
  parse_int = λ s. none;
  parse_float = λ s. none;
  parse_json = λ s. none;
  strip_lower = λ s. s;
}

abbrev nowhere : String → Bool
nowhere s = false

abbrev anywhere : String → Bool
anywhere s = true

defaults_run : validate_config_values nowhere anywhere defaults ≡ ok defaults
unfolding validate_config_values defaults validate_keys require get validate_field validate_kind
    kind_of count_range validate_nonempty_string is_blank is_space check_path resolve_db_path member
    validate_count validate_timeout validate_features has_empty_name has_non_bool filter_keys
    validate_role validate_text validate_switch
defaults_run = refl

abbrev chosen : Fields
chosen = field "user_domain" (str "me") end

-- a file with a key of someone else's and a retired one
abbrev existing : Fields
existing = field "other" (str "kept") (field "auto_classify" (str "old") end)

abbrev settings : Fields
unfolding put defaults
settings = put "user_domain" (str "me") defaults

abbrev written : Fields
unfolding put
written = put "other" (str "kept") settings

saved_run : saved_object nowhere anywhere chosen (holds (dict existing)) ≡ ok written
unfolding validate_config_values defaults validate_keys require get validate_field validate_kind
    kind_of count_range validate_nonempty_string is_blank is_space check_path resolve_db_path member
    validate_count validate_timeout validate_features has_empty_name has_non_bool filter_keys
    validate_role validate_text validate_switch saved_object read_existing_config merge put
saved_run = refl

abbrev disk : Disk
disk = record { document = holds (dict existing); temporary = 0 }

abbrev saved_disk : Disk
saved_disk = record { document = holds (dict written); temporary = 0 }

save_run : save_config nowhere anywhere (λ p. none) chosen disk ≡ (ok false, saved_disk)
unfolding validate_config_values defaults validate_keys require get validate_field validate_kind
    kind_of count_range validate_nonempty_string is_blank is_space check_path resolve_db_path member
    validate_count validate_timeout validate_features has_empty_name has_non_bool filter_keys
    validate_role validate_text validate_switch saved_object read_existing_config merge put
    save_config attempt atomic_write_config write_object
save_run = refl

load_run : load_config nowhere anywhere parsers (λ k. none) (holds (dict written)) ≡ ok settings
unfolding validate_config_values defaults validate_keys require get validate_field validate_kind
    kind_of count_range validate_nonempty_string is_blank is_space check_path resolve_db_path member
    validate_count validate_timeout validate_features has_empty_name has_non_bool filter_keys
    validate_role validate_text validate_switch load_config merged_document merge put override_all
    override
load_run = refl

validate_config_values-Settled_example : Settled config_keys defaults
validate_config_values-Settled_example =
    validate_config_values-Settled nowhere anywhere defaults defaults defaults_run

validate_config_values_idem_example : validate_config_values nowhere anywhere defaults ≡ ok defaults
validate_config_values_idem_example =
    validate_config_values_idem nowhere anywhere defaults defaults defaults_run

-- The file system refuses the replacement.
abbrev refused : Point → Option Stop
refused at_replace = some raises
refused p = none

save_config-atomic_example :
    let after = (save_config nowhere anywhere refused chosen disk).1 in
    IsOldOrNew (saved_object nowhere anywhere chosen disk.document) disk after
    × (disk.temporary ≤ after.temporary)
    × (after.temporary ≤ disk.temporary + 1)
    × (IsHandled refused → after.temporary ≡ disk.temporary)
save_config-atomic_example = save_config-atomic nowhere anywhere refused chosen disk

load_config-save_config_example :
    (o : Fields) × (c : Fields) × (saved_disk.document ≡ holds (dict o))
    × (load_config nowhere anywhere parsers (λ k. none) saved_disk.document ≡ ok c)
    × ((j : String) → known_key j ≡ true → get j c ≡ get j o)
load_config-save_config_example =
    load_config-save_config nowhere anywhere parsers (λ p. none) chosen disk saved_disk save_run

load_config-Settled_example : Settled config_keys settings
load_config-Settled_example =
    load_config-Settled nowhere anywhere parsers (λ k. none) (holds (dict written)) settings
      load_run

load_effective_config_snapshot-validated_example :
    load_effective_config_snapshot nowhere anywhere parsers (dict defaults) ≡ ok defaults
load_effective_config_snapshot-validated_example =
    load_effective_config_snapshot-validated nowhere anywhere parsers defaults defaults defaults_run
