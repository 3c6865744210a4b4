-- ===== src/Prefetch/Worker.antt =====
-- The one worker: it takes the waiting request, looks up its cues one after the other, checks before
-- each stage that the request is still current, and stages what it found.
use hermes_cashew.Base.{
  ◌+◌, Bool, false, ◌||◌, List, [], ◌∷◌, ◌++◌, none, some, String, str_eq, if◌then◌else◌,
}
use hermes_cashew.Prefetch.Identity.{Identity, Runtime}
use hermes_cashew.Prefetch.Slot.{
  Phase, fresh, checked, looking, nonblank, Node, Active, Slot, request_is_current, stage_result,
  queue_prefetch, consume_pending, begin_shutdown,
}

-- the head of the worker's loop
unfoldable pub take_request : Slot → Slot
take_request s = elim s.active [
  | some a ↦ s
  | none ↦ elim s.pending_request [
    | none ↦ if s.shutdown_started then record s { worker_alive = false } else s
    | some r ↦ record s {
      pending_request = none;
      active = some (record { request = r; phase = fresh; cues = []; remaining = []; nodes = [] });
    }
  ]
]

unfoldable pub has_id : String → List Node → Bool
has_id i [] = false
has_id i (n ∷ ns) = str_eq n.id i || has_id i ns

-- the nodes of one cue behind those of the cues before, each id once
unfoldable pub add_nodes : List Node → List Node → List Node
unfolding has_id
add_nodes all [] = all
add_nodes all (n ∷ ns) = add_nodes (if has_id n.id all then all else all ++ n ∷ []) ns

abbrev pub stopped : Slot → Slot
stopped s = record s { active = none }

abbrev pub cancelled_by : Slot → Slot
cancelled_by s = record s { active = none; cancelled = s.cancelled + 1 }

-- a stage that runs only for a current request; any other one is cancelled
abbrev pub if_current : Active → Slot → Slot → Slot
if_current a s next = if request_is_current a.request.identity s then next else cancelled_by s

-- The worker's stages: the first check, the cues (by the model, or the query itself), the nodes of
-- the next cue, the end, and an exception on the way.
pub data Stage : Type 0 where
  starts publishes raises : Stage
  extracts : List String → Stage
  looks_up : List Node → Stage

abbrev pub begun : Active → Slot → Slot
begun a s = record s { active = some (record a { phase = checked }) }

-- with no cue there is nothing to do
abbrev pub with_cues : Active → List String → Slot → Slot
with_cues a [] s = stopped s
with_cues a (c ∷ cs) s =
    if_current a s
      (record s { active = some (record a { phase = looking; cues = c ∷ cs; remaining = c ∷ cs }) })

abbrev pub with_nodes : Active → List Node → List String → Slot → Slot
with_nodes a ns [] s = s
with_nodes a ns (c ∷ cs) s =
    if_current a s
      (record s { active = some (record a { remaining = cs; nodes = add_nodes a.nodes ns }) })

abbrev pub staged : Active → List Node → Slot → Slot
staged a [] s = stopped s
staged a (n ∷ ns) s = stopped (stage_result a.request.identity a.cues (n ∷ ns) s)

-- the end, once no cue is left
abbrev pub ended : Active → List String → Slot → Slot
ended a [] s = if_current a s (staged a a.nodes s)
ended a (c ∷ cs) s = s

abbrev pub failed_by : Slot → Slot
failed_by s = record s { active = none; failed = s.failed + 1 }

-- A stage out of its phase does nothing.
abbrev pub do_stage : Stage → Phase → Active → Slot → Slot
do_stage starts fresh a s = if_current a s (begun a s)
do_stage (extracts cues) checked a s =
    with_cues a (nonblank (if a.request.use_llm then cues else a.request.query ∷ [])) s
do_stage (looks_up ns) looking a s = with_nodes a ns a.remaining s
do_stage publishes looking a s = ended a a.remaining s
do_stage raises checked a s = if_current a s (failed_by s)
do_stage raises looking a s = if_current a s (failed_by s)
do_stage x phase a s = s

unfoldable pub run_stage : Stage → Slot → Slot
unfolding request_is_current stage_result nonblank add_nodes
run_stage x s = elim s.active [ none ↦ s | some a ↦ do_stage x a.phase a s ]

-- What happens to the slot, in any order: a call of the host, a reader, the worker, a change of what
-- the provider is, and a shutdown.
pub data Move : Type 0 where
  queues : Bool → String → String → Move
  consumes : Identity → Move
  takes shuts_down : Move
  stages : Stage → Move
  rebinds : Runtime → Move

unfoldable pub move : Move → Slot → Slot
unfolding queue_prefetch consume_pending take_request run_stage begin_shutdown
move (queues started query session) s = queue_prefetch started query session s
move (consumes i) s = (consume_pending i s).1
move takes s = take_request s
move (stages x) s = run_stage x s
move shuts_down s = begin_shutdown s
move (rebinds r) s = record s { runtime = r }

unfoldable pub run : List Move → Slot → Slot
unfolding move
run [] s = s
run (m ∷ ms) s = run ms (move m s)
