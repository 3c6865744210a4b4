-- ===== src/Tests/PrefetchRuns.antt =====
-- A request is queued, taken, looked up and staged, and a reader consumes its result.
use hermes_cashew.Base.{true, false, List, [], ◌∷◌, none, some}
use hermes_cashew.Prefetch.Identity.{Runtime, Identity}
use hermes_cashew.Prefetch.Slot.{Slot, Warm, Node, any_scope}
use hermes_cashew.Prefetch.Worker.{
  Move, queues, takes, stages, extracts, starts, looks_up, publishes,
}

abbrev runtime : Runtime
runtime = record {
  db_path = "brain.db";
  config_fingerprint = "{}";
  recall_limit = 5;
  embedding_epoch = some 1;
  embedding_generation = none;
}

abbrev slot : Slot
slot = record {
  has_config = true;
  initializing = false;
  shutdown_started = false;
  session_id = "s";
  runtime = runtime;
  prefetch_k = 3;
  prefetch_cues = 3;
  identity_ready = true;
  has_model = false;
  generation = 0;
  pending = none;
  pending_request = none;
  latest_identity = none;
  worker_alive = false;
  active = none;
  coalesced = 0;
  cancelled = 0;
  failed = 0;
}

abbrev node : Node
node = record { id = "n1"; content = "c" }

abbrev moves : List Move
moves =
    queues true "tea" ""
    ∷ takes
    ∷ stages starts
    ∷ stages (extracts [])
    ∷ stages (looks_up (node ∷ node ∷ []))
    ∷ stages publishes
    ∷ []

abbrev identity : Identity
identity = record { generation = 1; session_id = "s"; runtime = runtime; scope = any_scope }

abbrev warm : Warm
warm = record { identity = identity; cues = "tea" ∷ []; nodes = node ∷ [] }
