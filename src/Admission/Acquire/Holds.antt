-- ===== src/Admission/Acquire/Holds.antt =====
-- The descriptors that a round leaves open.
use hermes_cashew.Base.{
  ℕ, ◌≡◌, refl, sym, ap, ◌∙◌, Bool, true, false, ◌||◌, List, [], ◌∷◌, ◌++◌, map, Option, none, some,
  String, is_some, if_elim,
}
use hermes_cashew.Locking.System.{System, shared, exclusive, without, without_head}
use hermes_cashew.Locking.Lease.{
  LockError, Entry, Entered, raised, entered, leave, leave-descriptors, enter_lock-descriptors, fds,
}
use hermes_cashew.Admission.{Request}
use hermes_cashew.Admission.Acquire.{
  Round, given_up, admitted, busy, broke, close_stack, acquire_round, try_lock, give_up, break_with,
  after_cache, with_graph, after_graph, after_cache_alone, acquire_from, token,
}

-- the descriptors of a stack, the last entered first
abbrev pub files : List Entry → List ℕ
files = map (λ e. e.fd)

-- what a round leaves open
abbrev pub held : Round → List ℕ
held (admitted token stack) = files stack
held busy = []
held (broke err) = []

module _ (sys : System) where
  open sys use {World, descriptors, descriptors_sleep}

  pub close_stack-descriptors :
      (h : Bool) (es : List Entry) (w : World) (ds : List ℕ)
      → descriptors w ≡ files es ++ ds
      → descriptors (close_stack sys h es w).1 ≡ ds
  unfolding close_stack
  close_stack-descriptors h [] w ds p = p
  close_stack-descriptors h (e ∷ es) w ds p =
      close_stack-descriptors (h || is_some (leave sys h e w).0) es (leave sys h e w).1 ds
        (leave-descriptors sys h e w ∙ ap (without e.fd) p ∙ without_head e.fd (files es ++ ds))

  try_lock-descriptors :
      (strong : Bool) (p : String) (w : World)
      → descriptors (try_lock sys strong p w).1
        ≡ fds sys (try_lock sys strong p w).0 (descriptors w)
  unfolding try_lock
  try_lock-descriptors true p w = enter_lock-descriptors sys exclusive p w
  try_lock-descriptors false p w = enter_lock-descriptors sys shared p w

  -- A round that holds what it says, above what was open before it.
  abbrev pub Holds : List ℕ → Round × World → Type 0
  Holds ds (round, w) = descriptors w ≡ held round ++ ds

  held-given_up : (o : Option LockError) → held (given_up o) ≡ []
  held-given_up none = refl
  held-given_up (some err) = refl

  give_up-Holds :
      (es : List Entry) (w : World) (ds : List ℕ)
      → descriptors w ≡ files es ++ ds
      → Holds ds (give_up sys es w)
  unfolding give_up
  give_up-Holds es w ds p =
      close_stack-descriptors false es w ds p
      ∙ sym (ap (λ hs. hs ++ ds) (held-given_up (close_stack sys false es w).0))

  after_cache-Holds :
      (r : Request) (g : Entry) (x : Entered × World) (ds : List ℕ)
      → descriptors x.1 ≡ fds sys x.0 (g.fd ∷ ds)
      → Holds ds (after_cache sys r g x)
  unfolding after_cache break_with
  after_cache-Holds r g (raised err, w) ds p = close_stack-descriptors true (g ∷ []) w ds p
  after_cache-Holds r g (entered c, w) ds p =
      if_elim (Holds ds) c.acquired p (give_up-Holds (c ∷ g ∷ []) w ds p)

  with_graph-Holds :
      (r : Request) (cache : Option String) (g : Entry) (w : World) (ds : List ℕ)
      → descriptors w ≡ g.fd ∷ ds
      → Holds ds (with_graph sys r cache g w)
  unfolding with_graph
  with_graph-Holds r none g w ds p = p
  with_graph-Holds r (some cache) g w ds p =
      let x = try_lock sys r.cache_exclusive cache w in
      after_cache-Holds r g x ds
        (try_lock-descriptors r.cache_exclusive cache w ∙ ap (fds sys x.0) p)

  after_graph-Holds :
      (r : Request) (x : Entered × World) (ds : List ℕ)
      → descriptors x.1 ≡ fds sys x.0 ds
      → Holds ds (after_graph sys r x)
  unfolding after_graph break_with
  after_graph-Holds r (raised err, w) ds p = close_stack-descriptors true [] w ds p
  after_graph-Holds r (entered g, w) ds p =
      if_elim (Holds ds) g.acquired (with_graph-Holds r r.cache g w ds p)
        (give_up-Holds (g ∷ []) w ds p)

  after_cache_alone-Holds :
      (r : Request) (x : Entered × World) (ds : List ℕ)
      → descriptors x.1 ≡ fds sys x.0 ds
      → Holds ds (after_cache_alone sys r x)
  unfolding after_cache_alone break_with
  after_cache_alone-Holds r (raised err, w) ds p = close_stack-descriptors true [] w ds p
  after_cache_alone-Holds r (entered c, w) ds p =
      if_elim (Holds ds) c.acquired p (give_up-Holds (c ∷ []) w ds p)

  acquire_from-Holds :
      (r : Request) (graph cache : Option String) (w : World)
      → Holds (descriptors w) (acquire_from sys r graph cache w)
  unfolding acquire_from
  acquire_from-Holds r (some graph) cache w =
      after_graph-Holds r (try_lock sys r.exclusive graph w) (descriptors w)
        (try_lock-descriptors r.exclusive graph w)
  acquire_from-Holds r none (some cache) w =
      after_cache_alone-Holds r (try_lock sys (r.cache_exclusive || r.exclusive) cache w)
        (descriptors w) (try_lock-descriptors (r.cache_exclusive || r.exclusive) cache w)
  acquire_from-Holds r none none w = refl

  -- A round that admits leaves open the descriptors of its stack above those from before, and any
  -- other round leaves open those from before.
  pub acquire_round-Holds :
      (r : Request) (w : World)
      → descriptors (acquire_round sys r w).1 ≡ held (acquire_round sys r w).0 ++ descriptors w
  unfolding acquire_round
  acquire_round-Holds r w = acquire_from-Holds r r.graph r.cache w
