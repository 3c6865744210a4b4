-- ===== src/Config/Files.antt =====
-- Reading and writing cashew.json. `int`, `float` and `json.loads` on a text, and the writing of a
-- document, are the language's; a document is modelled by the value that it holds.
use hermes_cashew.Base.{
  ℕ, ◌+◌, ◌-◌, Bool, true, false, not, ◌&&◌, List, [], ◌∷◌, Option, none, some, String, str_eq,
  member, if◌then◌else◌,
}
use hermes_cashew.Base.Int.{ℤ}
use hermes_cashew.Base.Value.{
  Value, bool, int, float, str, dict, Fields, end, field, get, put, merge, filter_keys, Float,
  has_key,
}
use hermes_cashew.Config.Fields.{
  ConfigError, Result, ok, err, ◌>>=◌, invalid, not_json, not_object, defaults, config_keys,
  removed_legacy_config_keys, validate_field, validate_config_values,
}

-- The file: it is not there, it is no JSON, or it holds a value.
pub data Document : Type 0 where
  missing broken : Document
  holds : Value → Document

-- The conversions of a text, `none` for ValueError.
pub record Parsers : Type 0 where
  pub parse_int : String → Option ℤ
  pub parse_float : String → Option Float
  pub parse_json : String → Option Value
  pub strip_lower : String → String

abbrev pub true_words : List String
true_words = "1" ∷ "true" ∷ "yes" ∷ "on" ∷ []

abbrev pub false_words : List String
false_words = "0" ∷ "false" ∷ "no" ∷ "off" ∷ []

-- `_read_existing_config`
unfoldable pub read_existing_config : Document → Result Fields
read_existing_config missing = ok end
read_existing_config broken = err not_json
read_existing_config (holds (dict d)) = ok d
read_existing_config (holds v) = err not_object

parsed_int : Option ℤ → Result Value
parsed_int none = err invalid
parsed_int (some z) = ok (int z)

parsed_float : Option Float → Result Value
parsed_float none = err invalid
parsed_float (some x) = ok (float x)

-- a JSON text for the flags must hold an object
parsed_dict : Option Value → Result Value
parsed_dict (some (dict d)) = ok (dict d)
parsed_dict o = err invalid

-- what an exception handler for ValueError, TypeError and JSONDecodeError takes
abbrev pub caught : ConfigError → Bool
caught invalid = true
caught not_json = true
caught not_object = true
caught e = false

-- `set(snapshot) == set(DEFAULTS)`
unfoldable pub same_keys : List String → Fields → Bool
same_keys ks end = true
same_keys ks (field k v rest) = member k ks && same_keys ks rest

unfoldable pub all_there : List String → Fields → Bool
all_there [] d = true
all_there (k ∷ ks) d = has_key k d && all_there ks d

-- the object that is laid over the defaults
unfoldable pub merged_document : Document → Result Fields
merged_document missing = ok defaults
merged_document broken = err not_json
merged_document (holds (dict raw)) = ok (merge defaults raw)
merged_document (holds v) = err not_object

module _ (is_absolute is_within : String → Bool) (parsers : Parsers) where
  open parsers use {parse_int, parse_float, parse_json, strip_lower}

  coerce_bool : String → Result Value
  coerce_bool normalized =
      if member normalized true_words
      then ok (bool true)
      else if member normalized false_words
      then ok (bool false)
      else err invalid

  -- by the type of the default
  coerce_like : String → Option Value → String → Result Value
  coerce_like key (some (bool b)) text = coerce_bool (strip_lower text)
  coerce_like key (some (int z)) text = parsed_int (parse_int text)
  coerce_like key (some (float x)) text = parsed_float (parse_float text)
  coerce_like key other text =
      if str_eq key "_features" then parsed_dict (parse_json text) else ok (str text)

  unfoldable pub coerce_environment_value : String → String → Result Value
  unfolding coerce_like coerce_bool parsed_int parsed_float parsed_dict
  coerce_environment_value key text = coerce_like key (get key defaults) text

  -- one key of the loop over the environment: a value that is refused is passed over
  overridden : String → Result Value → Fields → Result Fields
  overridden key (ok w) merged = ok (put key w merged)
  overridden key (err e) merged = if caught e then ok merged else err e

  unfoldable pub override : String → Option String → Fields → Result Fields
  unfolding overridden
  override key none merged = ok merged
  override key (some text) merged =
      overridden key
        (do
          candidate ← coerce_environment_value key text
          validate_field is_absolute is_within key candidate)
        merged

  unfoldable pub override_all : (String → Option String) → List String → Fields → Result Fields
  override_all env [] merged = ok merged
  override_all env (k ∷ ks) merged = do next ← override k (env k) merged; override_all env ks next

  -- `env` reads the variable of a key.
  unfoldable pub load_config : (String → Option String) → Document → Result Fields
  unfolding override_all override
  load_config env document = do
    merged ← merged_document document
    all ← override_all env config_keys merged
    validate_config_values is_absolute is_within all

  unfoldable pub load_effective_config_snapshot : Value → Result Fields
  unfolding same_keys all_there
  load_effective_config_snapshot (dict d) =
      if same_keys config_keys d && all_there config_keys d
      then validate_config_values is_absolute is_within d
      else err invalid
  load_effective_config_snapshot v = err invalid

abbrev pub retained_key : String → Bool
retained_key key = not (member key removed_legacy_config_keys)

abbrev pub known_key : String → Bool
known_key key = member key config_keys

-- How an operation of the write ends early: an exception that the handler catches, one whose
-- handler fails in turn to unlink the file, or an interrupt or a kill, which no handler sees.
pub data Stop : Type 0 where
  raises sticks interrupts : Stop

-- The operations of the write; `at_entry` is between `mkstemp` and the handler's scope.
pub data Point : Type 0 where
  at_create at_entry at_write at_mode at_replace at_sync : Point

-- the file, and how many temporary files lie beside it
pub record Disk : Type 0 where
  pub document : Document
  pub temporary : ℕ

-- An operation on a disk, with the disk that the handler leaves and what follows the operation. A
-- write that does not return answers `true`.
unfoldable pub attempt : Option Stop → Disk → Disk → Bool × Disk → Bool × Disk
attempt none unlinked d rest = rest
attempt (some raises) unlinked d rest = (true, unlinked)
attempt (some sticks) unlinked d rest = (true, d)
attempt (some interrupts) unlinked d rest = (true, d)

-- After the replacement no temporary file is there to unlink.
unfoldable pub atomic_write_config : (Point → Option Stop) → Value → Disk → Bool × Disk
unfolding attempt
atomic_write_config stop v d =
    let staged : Disk = record d { temporary = d.temporary + 1 } in
    let unlinked : Disk = record staged { temporary = staged.temporary - 1 } in
    let replaced : Disk = record { document = holds v; temporary = staged.temporary - 1 } in
    attempt (stop at_create) d d (
      attempt (stop at_entry) staged staged (
        attempt (stop at_write) unlinked staged (
          attempt (stop at_mode) unlinked staged (
            attempt (stop at_replace) unlinked staged
              (attempt (stop at_sync) replaced replaced (false, replaced))))))

module _ (is_absolute is_within : String → Bool) where
  -- the object that `save_config` writes
  unfoldable pub saved_object : Fields → Document → Result Fields
  saved_object values document = do
    existing ← read_existing_config document
    let merged = merge defaults (filter_keys retained_key existing)
    let updated = merge merged (filter_keys known_key values)
    validated ← validate_config_values is_absolute is_within updated
    ok (merge updated validated)

  -- what comes of it: an error, or whether the write raised
  unfoldable pub write_object : (Point → Option Stop) → Result Fields → Disk → Result Bool × Disk
  write_object stop (err e) disk = (err e, disk)
  write_object stop (ok o) disk =
      let (raised, after) = atomic_write_config stop (dict o) disk in (ok raised, after)

  unfoldable pub save_config : (Point → Option Stop) → Fields → Disk → Result Bool × Disk
  unfolding write_object
  save_config stop values disk = write_object stop (saved_object values disk.document) disk

  -- `generate_default_config`, whose first act is to leave an existing file alone
  unfoldable pub generate_default_config : (Point → Option Stop) → Disk → Result Bool × Disk
  generate_default_config stop disk = elim disk.document [
    | missing ↦ save_config stop defaults disk
    | broken ↦ (ok false, disk)
    | holds v ↦ (ok false, disk)
  ]
