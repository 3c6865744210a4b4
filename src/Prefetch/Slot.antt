-- ===== src/Prefetch/Slot.antt =====
-- The state that the producer, the worker and the readers share, and what the producer does.
use hermes_cashew.Base.{
  ℕ, ◌+◌, ◌∷◌, Bool, true, false, not, ◌&&◌, ◌||◌, List, [], Option, none, some, String, str_eq,
  is_some, if◌then◌else◌, ltb,
}
use hermes_cashew.Config.Fields.{is_blank}
use hermes_cashew.Prefetch.Identity.{Runtime, Scope, Identity, identity_eq}

-- A node that a retrieval finds, by its id, `""` where it has none.
pub record Node : Type 0 where
  pub id : String
  pub content : String

pub record Request : Type 0 where
  pub identity : Identity
  pub query : String
  pub db_path : String
  pub top_k : ℕ
  pub use_llm : Bool

-- `_PrefetchResult`
pub record Warm : Type 0 where
  pub identity : Identity
  pub cues : List String
  pub nodes : List Node

-- A request before its first check, behind it, and with its cues at hand.
pub data Phase : Type 0 where
  fresh checked looking : Phase

-- The request that runs, with the cues that it has still to look up, and what it has found.
pub record Active : Type 0 where
  pub request : Request
  pub phase : Phase
  pub cues : List String
  pub remaining : List String
  pub nodes : List Node

-- `has_config` says that neither the configuration nor the path is None.
pub record Slot : Type 0 where
  pub has_config : Bool
  pub initializing : Bool
  pub shutdown_started : Bool
  pub session_id : String
  pub runtime : Runtime
  pub prefetch_k : ℕ
  pub prefetch_cues : ℕ
  pub identity_ready : Bool
  pub has_model : Bool
  pub generation : ℕ
  pub pending : Option Warm
  pub pending_request : Option Request
  pub latest_identity : Option Identity
  pub worker_alive : Bool
  pub active : Option Active
  pub coalesced : ℕ
  pub cancelled : ℕ
  pub failed : ℕ

abbrev pub any_scope : Scope
any_scope = record { domain = none; tag = none; exclude_tags = [] }

-- `_prefetch_request_identity`, of a scope in its normal form
unfoldable pub request_identity : String → Scope → Slot → Identity
request_identity session scope s = record {
  generation = s.generation;
  session_id = session;
  runtime = s.runtime;
  scope = scope;
}

-- a worker is there, or `started` says whether a new one comes up
unfoldable pub ensure_worker : Bool → Slot → Slot
ensure_worker started s =
    if s.worker_alive
    then s
    else if started
    then record s { worker_alive = true }
    else record s { pending_request = none; failed = s.failed + 1 }

-- the part behind the new generation
unfoldable pub queue_request : Bool → String → String → Slot → Slot
unfolding request_identity ensure_worker
queue_request started query session s =
    let identity = request_identity session any_scope s in
    if str_eq query ""
    then record s { latest_identity = none }
    else ensure_worker started (record s {
      coalesced = if is_some s.pending_request then s.coalesced + 1 else s.coalesced;
      pending_request = some (record {
        identity = identity;
        query = query;
        db_path = s.runtime.db_path;
        top_k = s.prefetch_k;
        use_llm = s.identity_ready && (s.has_model && ltb 0 s.prefetch_cues);
      });
      latest_identity = some identity;
    })

unfoldable pub queue_prefetch : Bool → String → String → Slot → Slot
unfolding queue_request
queue_prefetch started query session s =
    if not s.has_config || (s.initializing || s.shutdown_started)
    then s
    else queue_request started query (if str_eq session "" then s.session_id else session)
        (record s { generation = s.generation + 1; pending = none })

abbrev pub is_latest : Option Identity → Identity → Bool
is_latest none i = false
is_latest (some j) i = identity_eq j i

-- `_prefetch_request_is_current`
unfoldable pub request_is_current : Identity → Slot → Bool
unfolding request_identity
request_is_current i s =
    not s.shutdown_started
    && (not s.initializing
        && (is_latest s.latest_identity i
            && (s.has_config && identity_eq (request_identity i.session_id i.scope s) i)))

-- the cues with more than white space in them
unfoldable pub nonblank : List String → List String
nonblank [] = []
nonblank (c ∷ cs) = let rest = nonblank cs in if is_blank c then rest else c ∷ rest

-- `_stage_prefetch_result`
unfoldable pub stage_result : Identity → List String → List Node → Slot → Slot
unfolding request_identity nonblank
stage_result i cues nodes s =
    if identity_eq i (request_identity i.session_id i.scope s)
    then record s { pending = some (record { identity = i; cues = nonblank cues; nodes = nodes }) }
    else s

abbrev pub matching : Identity → Option Warm → Option Warm
matching i none = none
matching i (some w) = if identity_eq w.identity i then some w else none

-- `_consume_prefetch_pending_locked`: the result under each of its cues, and an empty slot
unfoldable pub consume_pending : Identity → Slot → Option Warm × Slot
consume_pending i s = (matching i s.pending, record s { pending = none })

-- what a shutdown does to the slot of a provider that has its queue
unfoldable pub begin_shutdown : Slot → Slot
begin_shutdown s = if s.shutdown_started then s else record s {
  shutdown_started = true;
  generation = s.generation + 1;
  pending = none;
  pending_request = none;
  latest_identity = none;
}
