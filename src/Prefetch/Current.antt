-- ===== src/Prefetch/Current.antt =====
-- A warm result is of the latest request, and a reader gets it only under its own identity.
use hermes_cashew.Base.{
  ℕ, ◌+◌, ◌≡◌, refl, ap, subst, Bool, false, not, ◌||◌, List, [], ◌∷◌, ◌++◌, Option, none, some,
  String, str_eq, if◌then◌else◌, arith, if_elim, if_cases, str_eq_sym,
}
use hermes_cashew.Prefetch.Identity.{Identity, identity_eq, identity_eq→same}
use hermes_cashew.Prefetch.Slot.{
  Phase, fresh, checked, looking, nonblank, Node, Request, Warm, Active, Slot, request_identity,
  ensure_worker, queue_request, request_is_current, stage_result, queue_prefetch, consume_pending,
  begin_shutdown,
}
use hermes_cashew.Prefetch.Worker.{
  starts, ended, failed_by, take_request, if_current, stopped, has_id, add_nodes, Stage, extracts,
  looks_up, publishes, raises, with_cues, with_nodes, staged, do_stage, run_stage, Move, queues,
  consumes, takes, shuts_down, stages, rebinds, move, run,
}

-- The result that is staged is of the present generation.
abbrev WarmOf : ℕ → Option Warm → Type 0
WarmOf g none = Unit
WarmOf g (some w) = w.identity.generation ≡ g

-- Each id stands in a list once.
abbrev pub DistinctIds : List Node → Type 0
DistinctIds [] = Unit
DistinctIds (n ∷ ns) = (has_id n.id ns ≡ false) × DistinctIds ns

abbrev WarmNodes : Option Warm → Type 0
WarmNodes none = Unit
WarmNodes (some w) = DistinctIds w.nodes

abbrev ActiveNodes : Option Active → Type 0
ActiveNodes none = Unit
ActiveNodes (some a) = DistinctIds a.nodes

pub record IsCurrent (s : Slot) : Type 0 where
  pub warm : WarmOf s.generation s.pending
  pub warm_nodes : WarmNodes s.pending
  pub active_nodes : ActiveNodes s.active

has_id-append : (i : String) (ns ms : List Node) → has_id i (ns ++ ms) ≡ has_id i ns || has_id i ms
unfolding has_id
has_id-append i [] ms = refl
has_id-append i (n ∷ ns) ms = ground (arith, has_id-append i ns ms)

DistinctIds-append :
    (ns : List Node) (n : Node)
    → DistinctIds ns
    → has_id n.id ns ≡ false
    → DistinctIds (ns ++ n ∷ [])
unfolding has_id
DistinctIds-append [] n d h = (refl, tt)
DistinctIds-append (m ∷ ns) n d h =
    ground
      (arith, has_id-append m.id ns (n ∷ []), DistinctIds-append ns n d.1, str_eq_sym m.id n.id)

add_nodes-DistinctIds : (ns all : List Node) → DistinctIds all → DistinctIds (add_nodes all ns)
unfolding add_nodes
add_nodes-DistinctIds [] all d = d
add_nodes-DistinctIds (n ∷ ns) all d =
    add_nodes-DistinctIds ns (if has_id n.id all then all else all ++ n ∷ [])
      (if_cases DistinctIds (has_id n.id all) (λ h. d) (λ h. DistinctIds-append all n d h))

stage_result-IsCurrent :
    (i : Identity) (cues : List String) (ns : List Node) (s : Slot)
    → DistinctIds ns
    → IsCurrent s
    → IsCurrent (stage_result i cues ns s)
unfolding stage_result request_identity
stage_result-IsCurrent i cues ns s d c =
    if_cases IsCurrent (identity_eq i (request_identity i.session_id i.scope s))
      (λ same. record {
        warm = ap (λ (j : Identity). j.generation) (identity_eq→same i _ same);
        warm_nodes = d;
        active_nodes = c.active_nodes;
      })
      (λ other. c)

-- What keeps the result, the generation and the worker's nodes keeps the invariant.
IsCurrent-by :
    (s t : Slot)
    → t.generation ≡ s.generation
    → t.pending ≡ s.pending
    → t.active ≡ s.active
    → IsCurrent s
    → IsCurrent t
IsCurrent-by s t g p a c = record {
  warm = rw (g, p) c.warm;
  warm_nodes = rw p c.warm_nodes;
  active_nodes = rw a c.active_nodes;
}

IsCurrent-empty : (t : Slot) → t.pending ≡ none → ActiveNodes t.active → IsCurrent t
IsCurrent-empty t p a = record { warm = rw p tt; warm_nodes = rw p tt; active_nodes = a }

IsCurrent-stopped : (s : Slot) → IsCurrent s → IsCurrent (stopped s)
IsCurrent-stopped s c = record { warm = c.warm; warm_nodes = c.warm_nodes; active_nodes = tt }

pending-queue_request :
    (b : Bool) (query session : String) (s : Slot)
    → ((queue_request b query session s).pending ≡ s.pending)
      × ((queue_request b query session s).active ≡ s.active)
unfolding queue_request ensure_worker
pending-queue_request b query session s = ground arith

queue_prefetch-IsCurrent :
    (b : Bool) (query session : String) (s : Slot)
    → IsCurrent s
    → IsCurrent (queue_prefetch b query session s)
unfolding queue_prefetch
queue_prefetch-IsCurrent b query session s c =
    let named = if str_eq session "" then s.session_id else session in
    let (p, a) =
      pending-queue_request b query named
        (record s { generation = s.generation + 1; pending = none }) in
    if_elim IsCurrent (not s.has_config || (s.initializing || s.shutdown_started)) c (
      IsCurrent-empty
        (queue_request b query named (record s { generation = s.generation + 1; pending = none })) p
        (rw a c.active_nodes))

take_request-IsCurrent : (s : Slot) → IsCurrent s → IsCurrent (take_request s)
unfolding take_request
take_request-IsCurrent s c = taken_at s.active s.pending_request
  where
    taken_at :
        (o : Option Active) (w : Option Request)
        → IsCurrent (elim o as (λ x. Slot) [
          | some a ↦ s
          | none ↦ elim w as (λ x. Slot) [
            | none ↦ if s.shutdown_started then record s { worker_alive = false } else s
            | some r ↦ record s {
              pending_request = none;
              active =
                  some
                    (record { request = r; phase = fresh; cues = []; remaining = []; nodes = [] });
            }
          ]
        ])
    taken_at (some a) w = c
    taken_at none none = if_elim IsCurrent s.shutdown_started (IsCurrent-by s _ refl refl refl c) c
    taken_at none (some r) = record { warm = c.warm; warm_nodes = c.warm_nodes; active_nodes = tt }

if_current-IsCurrent :
    (a : Active) (s next : Slot) → IsCurrent s → IsCurrent next → IsCurrent (if_current a s next)
if_current-IsCurrent a s next c n =
    if_elim IsCurrent (request_is_current a.request.identity s) n
      (record { warm = c.warm; warm_nodes = c.warm_nodes; active_nodes = tt })

with_cues-IsCurrent :
    (a : Active) (cs : List String) (s : Slot)
    → DistinctIds a.nodes
    → IsCurrent s
    → IsCurrent (with_cues a cs s)
with_cues-IsCurrent a [] s d c = IsCurrent-stopped s c
with_cues-IsCurrent a (x ∷ cs) s d c =
    if_current-IsCurrent a s _ c
      (record { warm = c.warm; warm_nodes = c.warm_nodes; active_nodes = d })

with_nodes-IsCurrent :
    (a : Active) (ns : List Node) (cs : List String) (s : Slot)
    → DistinctIds a.nodes
    → IsCurrent s
    → IsCurrent (with_nodes a ns cs s)
with_nodes-IsCurrent a ns [] s d c = c
with_nodes-IsCurrent a ns (x ∷ cs) s d c = if_current-IsCurrent a s _ c (record {
  warm = c.warm;
  warm_nodes = c.warm_nodes;
  active_nodes = add_nodes-DistinctIds ns a.nodes d;
})

staged-IsCurrent :
    (a : Active) (ns : List Node) (s : Slot)
    → DistinctIds ns
    → IsCurrent s
    → IsCurrent (staged a ns s)
staged-IsCurrent a [] s d c = IsCurrent-stopped s c
staged-IsCurrent a (n ∷ ns) s d c =
    IsCurrent-stopped _ (stage_result-IsCurrent a.request.identity a.cues (n ∷ ns) s d c)

ended-IsCurrent :
    (a : Active) (cs : List String) (s : Slot)
    → DistinctIds a.nodes
    → IsCurrent s
    → IsCurrent (ended a cs s)
ended-IsCurrent a [] s d c = if_current-IsCurrent a s _ c (staged-IsCurrent a a.nodes s d c)
ended-IsCurrent a (x ∷ cs) s d c = c

failed_by-IsCurrent : (s : Slot) → IsCurrent s → IsCurrent (failed_by s)
failed_by-IsCurrent s c = record { warm = c.warm; warm_nodes = c.warm_nodes; active_nodes = tt }

do_stage-IsCurrent :
    (x : Stage) (f : Phase) (a : Active) (s : Slot)
    → DistinctIds a.nodes
    → IsCurrent s
    → IsCurrent (do_stage x f a s)
do_stage-IsCurrent starts fresh a s d c =
    if_current-IsCurrent a s _ c
      (record { warm = c.warm; warm_nodes = c.warm_nodes; active_nodes = d })
do_stage-IsCurrent (extracts cues) checked a s d c =
    with_cues-IsCurrent a (nonblank (if a.request.use_llm then cues else a.request.query ∷ [])) s d
      c
do_stage-IsCurrent (looks_up ns) looking a s d c = with_nodes-IsCurrent a ns a.remaining s d c
do_stage-IsCurrent publishes looking a s d c = ended-IsCurrent a a.remaining s d c
do_stage-IsCurrent raises checked a s d c = if_current-IsCurrent a s _ c (failed_by-IsCurrent s c)
do_stage-IsCurrent raises looking a s d c = if_current-IsCurrent a s _ c (failed_by-IsCurrent s c)
do_stage-IsCurrent x f a s d c = c

run_stage-IsCurrent : (x : Stage) (s : Slot) → IsCurrent s → IsCurrent (run_stage x s)
unfolding run_stage
run_stage-IsCurrent x s c = staged_at s.active refl
  where
    staged_at :
        (o : Option Active)
        → s.active ≡ o
        → IsCurrent (elim o as (λ y. Slot) [ none ↦ s | some a ↦ do_stage x a.phase a s ])
    staged_at none e = c
    staged_at (some a) e = do_stage-IsCurrent x a.phase a s (subst ActiveNodes e c.active_nodes) c

move-IsCurrent : (m : Move) (s : Slot) → IsCurrent s → IsCurrent (move m s)
unfolding move consume_pending begin_shutdown
move-IsCurrent (queues b query session) s c = queue_prefetch-IsCurrent b query session s c
move-IsCurrent (consumes i) s c = record {
  warm = tt;
  warm_nodes = tt;
  active_nodes = c.active_nodes;
}
move-IsCurrent takes s c = take_request-IsCurrent s c
move-IsCurrent (stages x) s c = run_stage-IsCurrent x s c
move-IsCurrent shuts_down s c =
    if_elim IsCurrent s.shutdown_started c
      (record { warm = tt; warm_nodes = tt; active_nodes = c.active_nodes })
move-IsCurrent (rebinds r) s c = IsCurrent-by s _ refl refl refl c

-- From a current slot, any moves of the host, the readers and the worker leave a current one: the
-- result that is staged is of the present generation, and it and the result in the making have
-- each node once.
pub run-IsCurrent : (ms : List Move) (s : Slot) → IsCurrent s → IsCurrent (run ms s)
unfolding run
run-IsCurrent [] s c = c
run-IsCurrent (m ∷ ms) s c = run-IsCurrent ms (move m s) (move-IsCurrent m s c)
