-- ===== src/Telemetry/Canonical.antt =====
-- Making an event canonical is done once and for all: the library may add to an event between a
-- capture and the transport, and nothing that was selected is changed on the way.
use hermes_cashew.Base.{
  ℕ, subst, ◌≡◌, refl, List, Option, none, some, String, member, arith, Bool-cases, inl, inr,
}
use hermes_cashew.Base.Int.{pos}
use hermes_cashew.Base.Value.{Value, null, int, str, Fields, end, field, get}
use hermes_cashew.Telemetry.Buckets.{ok, bounded_int, duration_bucket}
use hermes_cashew.Telemetry.Events.{
  safe_operations, safe_states, safe_fallbacks, safe_error_classes, safe_error_class, operation,
  allowed_text, Arguments, Metadata, get_or, select, safe_metadata, with_extra, metadata_fields,
  envelope, event, canonical_error, canonical_event, no_arguments, as_dict, sub_value, first_item,
}
use hermes_cashew.Telemetry.Privacy.{
  AtMost, OneOf, Kept, IsSafe, select-IsSafe, bind-ok-inv, ok-inj, raw_context, raw_error,
}

-- the arguments that an extra mapping stands for
read_back : Fields → Arguments
read_back d = record {
  generation = get_or "generation" d null;
  state = get_or "state" d null;
  fallback = get_or "fallback" d null;
  duration_ms = get_or "duration_ms" d (get_or "duration_bucket_ms" d null);
  count = get_or "count" d null;
  queue_depth = get_or "queue_depth" d null;
}

with_extra-read_back : (d : Fields) → with_extra (some d) no_arguments ≡ read_back d
unfolding with_extra read_back get
with_extra-read_back end = refl
with_extra-read_back (field k v rest) = refl

abbrev number_value : Option ℕ → Value
number_value none = null
number_value (some n) = int (pos n)

abbrev text_value : Option String → Value
text_value none = null
text_value (some s) = str s

stored : Metadata → Arguments
stored m = record {
  generation = number_value m.generation;
  state = text_value m.state;
  fallback = text_value m.fallback;
  duration_ms = number_value m.duration_bucket_ms;
  count = number_value m.count;
  queue_depth = number_value m.queue_depth;
}

read_back-metadata : (m : Metadata) → read_back (metadata_fields m) ≡ stored m
unfolding read_back metadata_fields stored get_or get
read_back-metadata m = ground arith

bounded_int-stored : (o : Option ℕ) → AtMost 1000000000 o → bounded_int (number_value o) ≡ o
unfolding bounded_int
bounded_int-stored none h = refl
bounded_int-stored (some n) h = ground arith

allowed_text-stored :
    (l : List String) (o : Option String) → OneOf l o → allowed_text l (text_value o) ≡ o
unfolding allowed_text
allowed_text-stored l none h = refl
allowed_text-stored l (some s) h = rw h

duration_bucket-stored : (o : Option ℕ) → Kept o → duration_bucket (number_value o) ≡ ok o
unfolding duration_bucket
duration_bucket-stored none h = refl
duration_bucket-stored (some b) h = h.fixed

select-stored : (m : Metadata) → IsSafe m → select (stored m) ≡ ok m
unfolding select stored
select-stored m s = rw (
  duration_bucket-stored m.duration_bucket_ms s.duration,
  bounded_int-stored m.generation s.generation,
  bounded_int-stored m.count s.count,
  bounded_int-stored m.queue_depth s.queue_depth,
  allowed_text-stored safe_states m.state s.state,
  allowed_text-stored safe_fallbacks m.fallback s.fallback,
)

safe_metadata-metadata :
    (m : Metadata) → IsSafe m → safe_metadata no_arguments (some (metadata_fields m)) ≡ ok m
unfolding safe_metadata
safe_metadata-metadata m s =
    rw (with_extra-read_back (metadata_fields m), read_back-metadata m) (select-stored m s)

-- A text that both functions leave alone.
operation_idem : (v : Value) → operation (str (operation v)) ≡ operation v
unfolding operation member
operation_idem (str s) = elim (Bool-cases (member s safe_operations)) [
  | inl h ↦ rw (h, h)
  | inr h ↦ rw h
]
operation_idem v = refl

safe_error_class_idem :
    (s : String) → canonical_error (str (safe_error_class s)) ≡ safe_error_class s
unfolding canonical_error safe_error_class member
safe_error_class_idem s = elim (Bool-cases (member s safe_error_classes)) [
  | inl h ↦ rw (h, h)
  | inr h ↦ rw h
]

canonical_error_idem : (v : Value) → canonical_error (str (canonical_error v)) ≡ canonical_error v
unfolding canonical_error member
canonical_error_idem (str s) = elim (Bool-cases (member s safe_error_classes)) [
  | inl h ↦ rw (h, h)
  | inr h ↦ rw h
]
canonical_error_idem v = refl

canonical_event-envelope :
    (op err : String) (m : Metadata)
    → operation (str op) ≡ op
    → canonical_error (str err) ≡ err
    → IsSafe m
    → canonical_event (envelope op (metadata_fields m) err)
      ≡ ok (envelope op (metadata_fields m) err)
unfolding canonical_event envelope sub_value as_dict first_item get_or get
canonical_event-envelope op err m ho he s = rw (safe_metadata-metadata m s, ho, he)

abbrev IsFixed : Value → Type 0
IsFixed w = canonical_event w ≡ ok w

-- The event that a capture builds is its own canonical form, so the second allowlist loses
-- nothing of it.
pub event-canonical :
    (error : String) (op : Value) (a : Arguments) (extra : Option Fields) (w : Value)
    → event error op a extra ≡ ok w
    → canonical_event w ≡ ok w
unfolding event safe_metadata
event-canonical error op a extra w h =
    let (m, p, q) = bind-ok-inv (safe_metadata a extra) _ h in
    subst IsFixed (ok-inj q) (
      canonical_event-envelope (operation op) (safe_error_class error) m (operation_idem op)
        (safe_error_class_idem error) (select-IsSafe (with_extra extra a) m p))

-- The canonical form of any event is its own canonical form.
pub canonical_event_idem : (e w : Value) → canonical_event e ≡ ok w → canonical_event w ≡ ok w
unfolding canonical_event safe_metadata
canonical_event_idem e w h =
    let (m, p, q) = bind-ok-inv (safe_metadata no_arguments (raw_context e)) _ h in
    subst IsFixed (ok-inj q) (
      canonical_event-envelope _ _ m (operation_idem (sub_value "operation" (sub_value "tags" e)))
        (canonical_error_idem (raw_error e)) (select-IsSafe _ m p))
