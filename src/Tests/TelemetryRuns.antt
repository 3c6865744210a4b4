-- ===== src/Tests/TelemetryRuns.antt =====
-- A captured error, and a handle that is closed.
use hermes_cashew.Base.{◌≡◌, refl, true, false, List, [], ◌∷◌, none, some, arith, member}
use hermes_cashew.Base.Int.{pos}
use hermes_cashew.Base.Value.{get, Value, str, int, end, field}
use hermes_cashew.Telemetry.Buckets.{ok, duration_bucket, first_ceiling, too_large}
use hermes_cashew.Telemetry.Events.{
  Arguments, no_arguments, event, canonical_event, metadata_fields, envelope, operation,
  safe_metadata, safe_error_class, canonical_error,
}
use hermes_cashew.Telemetry.Privacy.{is_public, event-public, canonical_event-public}
use hermes_cashew.Telemetry.Canonical.{event-canonical}
use hermes_cashew.Telemetry.Worker.{
  SentryTelemetry, captures, closes, goes_on, takes, Call, run, run-IsContained, IsContained,
}

bucket_run : duration_bucket (int (pos 120)) ≡ ok (some 1000)
unfolding duration_bucket first_ceiling too_large
bucket_run = refl

abbrev arguments : Arguments
arguments = record no_arguments { state = str "ready"; duration_ms = int (pos 120) }

abbrev captured : Value
captured =
    envelope "cashew.prefetch"
      (field "state" (str "ready") (field "duration_bucket_ms" (int (pos 1000)) end)) "ValueError"

capture_run : event "ValueError" (str "cashew.prefetch") arguments none ≡ ok captured
unfolding event safe_metadata duration_bucket too_large operation metadata_fields safe_error_class
    member
capture_run = refl

canonical_run : canonical_event captured ≡ ok captured
unfolding canonical_event safe_metadata duration_bucket too_large envelope operation metadata_fields
    get canonical_error member
canonical_run = refl

public_run : is_public captured ≡ true
unfolding is_public envelope member
public_run = refl

event-public_example : is_public captured ≡ true
event-public_example =
    event-public "ValueError" (str "cashew.prefetch") arguments none captured capture_run

canonical_event-public_example : is_public captured ≡ true
canonical_event-public_example = canonical_event-public captured captured canonical_run

event-canonical_example : canonical_event captured ≡ ok captured
event-canonical_example =
    event-canonical "ValueError" (str "cashew.prefetch") arguments none captured capture_run

abbrev handle : SentryTelemetry
handle = record {
  messages = some captured ∷ none ∷ [];
  queue_closed = false;
  alive = true;
  terminated = false;
  closed = false;
  threads = [];
}

abbrev calls : List Call
calls = captures captured ∷ closes ∷ goes_on 0 true ∷ takes ∷ goes_on 1 true ∷ []

handle-IsContained : IsContained handle
handle-IsContained = record { messages = (public_run, (tt, tt)); bounded = omega arith }

run-IsContained_example : IsContained (run handle calls)
run-IsContained_example = run-IsContained handle calls handle-IsContained
