-- ===== src/Admission/Acquire.antt =====
-- One round of `admit_operation`: the graph's lock and then the cache's, or the cache's alone, and
-- the exits of what was entered. `exits` is the `ExitStack`, the last entry first.
pub mod Holds
pub mod Time
use hermes_cashew.Base.{
  ℕ, ◌+◌, ◌≤◌, ◌≡◌, refl, sym, ap, ◌∙◌, Bool, true, false, ◌||◌, List, [], ◌∷◌, ◌++◌, map, Option,
  none, some, String, is_some, if◌then◌else◌, arith, Bool-cases, inl, inr,
}
use hermes_cashew.Locking.System.{System, LockMode, shared, exclusive, without, without_head}
use hermes_cashew.Locking.Lease.{
  LockError, Entry, Entered, raised, entered, yielded, leave, enter_lock, try_maintenance_lock,
  try_shared_lock,
}
use hermes_cashew.Admission.{OperationAdmission, Request}

-- What a round came to: a token with the stack of its exits, contention, or an exception.
pub data Round : Type 0 where
  admitted : OperationAdmission → List Entry → Round
  busy : Round
  broke : LockError → Round

-- an error of the exits comes out in place of the contention
abbrev pub given_up : Option LockError → Round
given_up none = busy
given_up (some err) = broke err

module _ (sys : System) where
  open sys use {World}

  -- `ExitStack.close`: every exit is run, an error of one is on its way in the later ones, and it
  -- is the one that comes out.
  unfoldable pub close_stack : Bool → List Entry → World → Option LockError × World
  close_stack handling [] w = (none, w)
  close_stack handling (e ∷ es) w =
      let first = leave sys handling e w in
      let rest = close_stack (handling || is_some first.0) es first.1 in
      (elim first.0 [ none ↦ rest.0 | some err ↦ some err ], rest.1)

  -- `try_maintenance_lock(p) if strong else try_shared_lock(p)`
  unfoldable pub try_lock : Bool → String → World → Entered × World
  unfolding try_maintenance_lock try_shared_lock
  try_lock strong p w = if strong then try_maintenance_lock sys p w else try_shared_lock sys p w

  pub token : Request → Option ℕ → Option ℕ → Bool → Bool → OperationAdmission
  token r graph_lease cache_lease strong cache_strong = record {
    graph_path = r.graph;
    cache_path = r.cache;
    model = r.model;
    embedding_dim = r.embedding_dim;
    vec_dim = r.vec_dim;
    epoch = r.epoch;
    supervisor = r.supervisor;
    embedding_generation = r.embedding_generation;
    graph_lease = graph_lease;
    cache_lease = cache_lease;
    exclusive = strong;
    cache_exclusive = cache_strong;
  }

  -- No owner: the stack is closed, and its error, if there is one, comes out.
  give_up : List Entry → World → Round × World
  give_up es w = let out = close_stack false es w in (given_up out.0, out.1)

  -- An exception while entering: the stack is closed behind it.
  break_with : LockError → List Entry → World → Round × World
  break_with err es w = (broke err, (close_stack true es w).1)

  after_cache : Request → Entry → Entered × World → Round × World
  after_cache r g (raised err, w) = break_with err (g ∷ []) w
  after_cache r g (entered c, w) =
      if c.acquired
      then (
        admitted (token r (some g.fd) (some c.fd) r.exclusive r.cache_exclusive) (c ∷ g ∷ []),
        w,
      )
      else give_up (c ∷ g ∷ []) w

  with_graph : Request → Option String → Entry → World → Round × World
  with_graph r none g w =
      (admitted (token r (some g.fd) none r.exclusive r.cache_exclusive) (g ∷ []), w)
  with_graph r (some cache) g w = after_cache r g (try_lock r.cache_exclusive cache w)

  after_graph : Request → Entered × World → Round × World
  after_graph r (raised err, w) = break_with err [] w
  after_graph r (entered g, w) = if g.acquired then with_graph r r.cache g w else give_up (g ∷ []) w

  after_cache_alone : Request → Entered × World → Round × World
  after_cache_alone r (raised err, w) = break_with err [] w
  after_cache_alone r (entered c, w) =
      if c.acquired
      then (
        admitted (token r none (some c.fd) false (r.cache_exclusive || r.exclusive)) (c ∷ []),
        w,
      )
      else give_up (c ∷ []) w

  acquire_from : Request → Option String → Option String → World → Round × World
  acquire_from r (some graph) cache w = after_graph r (try_lock r.exclusive graph w)
  acquire_from r none (some cache) w =
      after_cache_alone r (try_lock (r.cache_exclusive || r.exclusive) cache w)
  acquire_from r none none w = (busy, w)

  unfoldable pub acquire_round : Request → World → Round × World
  unfolding token give_up break_with after_cache with_graph after_graph after_cache_alone
      acquire_from
  acquire_round r w = acquire_from r r.graph r.cache w
