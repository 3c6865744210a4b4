-- ===== src/Telemetry/Events.antt =====
-- The events: what a capture builds, and what the worker makes of an event before it is sent.
use hermes_cashew.Base.{ℕ, List, [], ◌∷◌, Option, none, some, String, member, if◌then◌else◌}
use hermes_cashew.Base.Int.{pos}
use hermes_cashew.Base.Value.{Value, null, int, str, seq, dict, nil, cons, Fields, end, field, get}
use hermes_cashew.Telemetry.Buckets.{Result, ok, ◌>>=◌, bounded_int, duration_bucket}

abbrev pub safe_operations : List String
safe_operations =
    "cashew.initialize" ∷ "cashew.sync" ∷ "cashew.query" ∷ "cashew.extract" ∷ "cashew.prefetch"
    ∷ "cashew.sleep" ∷ "cashew.verify" ∷ []

abbrev pub safe_states : List String
safe_states = "initializing" ∷ "ready" ∷ "degraded" ∷ "stopping" ∷ "stopped" ∷ "failed" ∷ []

abbrev pub safe_fallbacks : List String
safe_fallbacks = "none" ∷ "keyword" ∷ "bfs" ∷ "cpu" ∷ "disabled" ∷ []

abbrev pub safe_error_classes : List String
safe_error_classes =
    "Exception" ∷ "ImportError" ∷ "KeyError" ∷ "OSError" ∷ "OperationalError" ∷ "RuntimeError"
    ∷ "TimeoutError" ∷ "TypeError" ∷ "ValueError" ∷ []

-- of the name of the exception's class
unfoldable pub safe_error_class : String → String
safe_error_class name = if member name safe_error_classes then name else "Exception"

unfoldable pub operation : Value → String
operation (str s) = if member s safe_operations then s else "cashew.unknown"
operation v = "cashew.unknown"

-- `value if isinstance(value, str) and value in allowed`
unfoldable pub allowed_text : List String → Value → Option String
allowed_text allowed (str s) = if member s allowed then some s else none
allowed_text allowed v = none

-- The keyword arguments of `_safe_metadata`.
pub record Arguments : Type 0 where
  pub generation : Value
  pub state : Value
  pub fallback : Value
  pub duration_ms : Value
  pub count : Value
  pub queue_depth : Value

abbrev pub no_arguments : Arguments
no_arguments = record {
  generation = null;
  state = null;
  fallback = null;
  duration_ms = null;
  count = null;
  queue_depth = null;
}

-- `d.get(key, default)`
unfoldable pub get_or : String → Fields → Value → Value
get_or key d default = elim (get key d) [ none ↦ default | some v ↦ v ]

-- `if extra:` takes the values of a mapping that is not empty in place of the arguments.
unfoldable pub with_extra : Option Fields → Arguments → Arguments
unfolding get_or
with_extra none a = a
with_extra (some end) a = a
with_extra (some (field k v rest)) a =
    let extra = field k v rest in
    record {
      generation = get_or "generation" extra a.generation;
      state = get_or "state" extra a.state;
      fallback = get_or "fallback" extra a.fallback;
      duration_ms = get_or "duration_ms" extra (get_or "duration_bucket_ms" extra a.duration_ms);
      count = get_or "count" extra a.count;
      queue_depth = get_or "queue_depth" extra a.queue_depth;
    }

-- The keys of the result that are there, in the order in which they are inserted.
pub record Metadata : Type 0 where
  pub generation : Option ℕ
  pub count : Option ℕ
  pub queue_depth : Option ℕ
  pub state : Option String
  pub fallback : Option String
  pub duration_bucket_ms : Option ℕ

-- `_safe_metadata` below the lines that read `extra`
unfoldable pub select : Arguments → Result Metadata
unfolding bounded_int allowed_text
select a = do
  bucket ← duration_bucket a.duration_ms
  ok (record {
    generation = bounded_int a.generation;
    count = bounded_int a.count;
    queue_depth = bounded_int a.queue_depth;
    state = allowed_text safe_states a.state;
    fallback = allowed_text safe_fallbacks a.fallback;
    duration_bucket_ms = bucket;
  })

unfoldable pub safe_metadata : Arguments → Option Fields → Result Metadata
unfolding select with_extra
safe_metadata a extra = select (with_extra extra a)

abbrev pub put_number : String → Option ℕ → Fields → Fields
put_number k none rest = rest
put_number k (some n) rest = field k (int (pos n)) rest

abbrev pub put_text : String → Option String → Fields → Fields
put_text k none rest = rest
put_text k (some s) rest = field k (str s) rest

-- the dictionary that `_safe_metadata` returns
unfoldable pub metadata_fields : Metadata → Fields
metadata_fields m = put_number "generation" m.generation (
    put_number "count" m.count (
      put_number "queue_depth" m.queue_depth (
        put_text "state" m.state (
          put_text "fallback" m.fallback
            (put_number "duration_bucket_ms" m.duration_bucket_ms end)))))

-- The envelope that both functions below write out.
unfoldable pub envelope : String → Fields → String → Value
envelope op context error_type = dict (
    field "level" (str "error") (
      field "platform" (str "python") (
        field "message" (str "cashew operation failed") (
          field "tags" (dict (field "operation" (str op) end)) (
            field "contexts" (dict (field "cashew" (dict context) end)) (
              field "breadcrumbs" (dict (field "values" (seq nil) end)) (
                field "exception"
                  (dict (
                    field "values"
                      (seq (
                        cons
                          (dict
                            (field "type" (str error_type) (field "value" (str "redacted") end)))
                          nil))
                      end))
                  end)))))))

-- The exception enters as its class's name.
unfoldable pub event : String → Value → Arguments → Option Fields → Result Value
event error op a extra = do
  m ← safe_metadata a extra
  ok (envelope (operation op) (metadata_fields m) (safe_error_class error))

-- `v.get(key) if isinstance(v, dict) else None`
unfoldable pub sub_value : String → Value → Value
unfolding get_or
sub_value key (dict d) = get_or key d null
sub_value key v = null

unfoldable pub as_dict : Value → Option Fields
as_dict (dict d) = some d
as_dict v = none

-- the first element of a list that has one; the code takes an empty dictionary otherwise
unfoldable pub first_item : Value → Value
first_item (seq (cons v rest)) = v
first_item v = dict end

unfoldable pub canonical_error : Value → String
canonical_error (str s) = if member s safe_error_classes then s else "Exception"
canonical_error v = "Exception"

unfoldable pub canonical_event : Value → Result Value
unfolding sub_value as_dict first_item
canonical_event e = do
  m ← safe_metadata no_arguments (as_dict (sub_value "cashew" (sub_value "contexts" e)))
  ok (
      envelope (operation (sub_value "operation" (sub_value "tags" e))) (metadata_fields m) (
        canonical_error
          (sub_value "type" (first_item (sub_value "values" (sub_value "exception" e))))))
