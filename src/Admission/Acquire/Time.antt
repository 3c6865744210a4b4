-- ===== src/Admission/Acquire/Time.antt =====
-- Time does not run backwards in a round.
use hermes_cashew.Base.{
  ◌≤◌, Bool, true, false, ◌||◌, List, [], ◌∷◌, Option, none, some, String, is_some, arith, if_elim,
}
use hermes_cashew.Locking.System.{System, shared, exclusive}
use hermes_cashew.Locking.Lease.{Entry, Entered, raised, entered, leave, now-leave, now-enter_lock}
use hermes_cashew.Admission.{Request}
use hermes_cashew.Admission.Acquire.{
  Round, close_stack, acquire_round, try_lock, give_up, break_with, after_cache, with_graph,
  after_graph, after_cache_alone, acquire_from,
}

module _ (sys : System) where
  open sys use {World, now}

  now-close_stack :
      (h : Bool) (es : List Entry) (w : World) → now w ≤ now (close_stack sys h es w).1
  unfolding close_stack
  now-close_stack h [] w = omega arith
  now-close_stack h (e ∷ es) w = omega (
    arith,
    now-leave sys h e w,
    now-close_stack (h || is_some (leave sys h e w).0) es (leave sys h e w).1,
  )

  now-try_lock : (strong : Bool) (p : String) (w : World) → now w ≤ now (try_lock sys strong p w).1
  unfolding try_lock
  now-try_lock true p w = now-enter_lock sys exclusive p w
  now-try_lock false p w = now-enter_lock sys shared p w

  now-give_up : (es : List Entry) (w : World) → now w ≤ now (give_up sys es w).1
  unfolding give_up
  now-give_up es w = now-close_stack false es w

  now-after_cache :
      (r : Request) (g : Entry) (x : Entered × World) → now x.1 ≤ now (after_cache sys r g x).1
  unfolding after_cache break_with
  now-after_cache r g (raised err, w) = now-close_stack true (g ∷ []) w
  now-after_cache r g (entered c, w) =
      if_elim (λ (x : Round × World). now w ≤ now x.1) c.acquired (omega arith)
        (now-give_up (c ∷ g ∷ []) w)

  now-with_graph :
      (r : Request) (cache : Option String) (g : Entry) (w : World)
      → now w ≤ now (with_graph sys r cache g w).1
  unfolding with_graph
  now-with_graph r none g w = omega arith
  now-with_graph r (some cache) g w = omega (
    arith,
    now-try_lock r.cache_exclusive cache w,
    now-after_cache r g (try_lock sys r.cache_exclusive cache w),
  )

  now-after_graph : (r : Request) (x : Entered × World) → now x.1 ≤ now (after_graph sys r x).1
  unfolding after_graph break_with
  now-after_graph r (raised err, w) = now-close_stack true [] w
  now-after_graph r (entered g, w) =
      if_elim (λ (x : Round × World). now w ≤ now x.1) g.acquired (now-with_graph r r.cache g w)
        (now-give_up (g ∷ []) w)

  now-after_cache_alone :
      (r : Request) (x : Entered × World) → now x.1 ≤ now (after_cache_alone sys r x).1
  unfolding after_cache_alone break_with
  now-after_cache_alone r (raised err, w) = now-close_stack true [] w
  now-after_cache_alone r (entered c, w) =
      if_elim (λ (x : Round × World). now w ≤ now x.1) c.acquired (omega arith)
        (now-give_up (c ∷ []) w)

  now-acquire_from :
      (r : Request) (graph cache : Option String) (w : World)
      → now w ≤ now (acquire_from sys r graph cache w).1
  unfolding acquire_from
  now-acquire_from r (some graph) cache w = omega (
    arith,
    now-try_lock r.exclusive graph w,
    now-after_graph r (try_lock sys r.exclusive graph w),
  )
  now-acquire_from r none (some cache) w = omega (
    arith,
    now-try_lock (r.cache_exclusive || r.exclusive) cache w,
    now-after_cache_alone r (try_lock sys (r.cache_exclusive || r.exclusive) cache w),
  )
  now-acquire_from r none none w = omega arith

  pub now-acquire_round : (r : Request) (w : World) → now w ≤ now (acquire_round sys r w).1
  unfolding acquire_round
  now-acquire_round r w = now-acquire_from r r.graph r.cache w
