-- ===== src/Locking/Lease.antt =====
-- `try_maintenance_lock` and `try_shared_lock`: one context manager with two modes of `flock`.
-- Entering it and leaving it are two functions, so that a stack of exits can call the second.
use Prim.Native.String.{◌++◌ as append}
use hermes_cashew.Base.{
  ℕ, ◌≤◌, ◌≡◌, refl, ap, ◌∙◌, Bool, true, false, List, ◌∷◌, Option, none, some, String,
  if◌then◌else◌, arith, Bool-cases, inl, inr,
}
use hermes_cashew.Locking.System.{
  System, LockMode, shared, exclusive, Reply, granted, contended, failed, opened, without,
  without_head,
}

pub data LockError : Type 0 where
  acquisition release_failed close_failed : LockError

-- What was entered: the descriptor, and whether the lock on it was granted.
pub record Entry : Type 0 where
  pub fd : ℕ
  pub acquired : Bool

-- what `with … as` binds
abbrev pub yielded : Entry → Option ℕ
yielded e = if e.acquired then some e.fd else none

pub data Entered : Type 0 where
  raised : LockError → Entered
  entered : Entry → Entered

module _ (sys : System) where
  open sys use {World, resolve, open_file, flock, unlock, close_file, now, descriptors}
  open sys use {descriptors_open, descriptors_flock, descriptors_unlock, descriptors_close}
  open sys use {now_open, now_flock, now_unlock, now_close}

  unfoldable pub lock_path_for_db : String → String
  lock_path_for_db db_path = append (resolve db_path) ".sleep.lock"

  -- The `finally` block. `handling` says that an exception is on its way out: then the errors of
  -- the release are logged, otherwise the last of them is raised. The file is closed in any case.
  unfoldable pub leave : Bool → Entry → World → Option LockError × World
  leave handling e w =
      let released = if e.acquired then unlock e.fd w else (false, w) in
      let closed = close_file e.fd released.1 in
      (
        if handling
            then none
            else if closed.0
            then some close_failed
            else if released.0
            then some release_failed
            else none,
        closed.1,
      )

  after_flock : ℕ → Reply → World → Entered × World
  after_flock fd granted w = (entered (record { fd = fd; acquired = true }), w)
  after_flock fd contended w = (entered (record { fd = fd; acquired = false }), w)
  after_flock fd failed w =
      (raised acquisition, (leave true (record { fd = fd; acquired = false }) w).1)

  after_open : LockMode → Option ℕ → World → Entered × World
  after_open m none w = (raised acquisition, w)
  after_open m (some fd) w = after_flock fd (flock m fd w).0 (flock m fd w).1

  unfoldable pub enter_lock : LockMode → String → World → Entered × World
  unfolding after_open after_flock
  enter_lock m db_path w =
      after_open m (open_file (lock_path_for_db db_path) w).0
        (open_file (lock_path_for_db db_path) w).1

  unfoldable pub try_maintenance_lock : String → World → Entered × World
  try_maintenance_lock = enter_lock exclusive

  unfoldable pub try_shared_lock : String → World → Entered × World
  try_shared_lock = enter_lock shared

  pub leave-descriptors :
      (h : Bool) (e : Entry) (w : World)
      → descriptors (leave h e w).1 ≡ without e.fd (descriptors w)
  unfolding leave
  leave-descriptors h e w = elim (Bool-cases e.acquired) [
    | inl a ↦
        rw a
          (descriptors_close e.fd (unlock e.fd w).1 ∙ ap (without e.fd) (descriptors_unlock e.fd w))
    | inr a ↦ rw a (descriptors_close e.fd w)
  ]

  -- An exception that is on its way is never replaced by an error of the release.
  pub leave-handling : (e : Entry) (w : World) → (leave true e w).0 ≡ none
  unfolding leave
  leave-handling e w = refl

  -- the descriptor that an entered lock holds
  abbrev pub fds : Entered → List ℕ → List ℕ
  fds (raised e) ds = ds
  fds (entered e) ds = e.fd ∷ ds

  after_flock-descriptors :
      (fd : ℕ) (r : Reply) (w : World) (ds : List ℕ)
      → descriptors w ≡ fd ∷ ds
      → descriptors (after_flock fd r w).1 ≡ fds (after_flock fd r w).0 ds
  unfolding after_flock
  after_flock-descriptors fd granted w ds h = h
  after_flock-descriptors fd contended w ds h = h
  after_flock-descriptors fd failed w ds h =
      leave-descriptors true _ w ∙ ap (without fd) h ∙ without_head fd ds

  after_open-descriptors :
      (m : LockMode) (o : Option ℕ) (w : World) (ds : List ℕ)
      → descriptors w ≡ opened o ds
      → descriptors (after_open m o w).1 ≡ fds (after_open m o w).0 ds
  unfolding after_open
  after_open-descriptors m none w ds h = h
  after_open-descriptors m (some fd) w ds h =
      after_flock-descriptors fd (flock m fd w).0 (flock m fd w).1 ds (descriptors_flock m fd w ∙ h)

  -- Entering a lock leaves one more descriptor open, or none if it raises.
  pub enter_lock-descriptors :
      (m : LockMode) (p : String) (w : World)
      → descriptors (enter_lock m p w).1 ≡ fds (enter_lock m p w).0 (descriptors w)
  unfolding enter_lock
  enter_lock-descriptors m p w =
      after_open-descriptors m (open_file (lock_path_for_db p) w).0
        (open_file (lock_path_for_db p) w).1 (descriptors w)
        (descriptors_open (lock_path_for_db p) w)

  pub now-leave : (h : Bool) (e : Entry) (w : World) → now w ≤ now (leave h e w).1
  unfolding leave
  now-leave h e w = elim (Bool-cases e.acquired) [
    | inl a ↦ rw a (omega (arith, now_unlock e.fd w, now_close e.fd (unlock e.fd w).1))
    | inr a ↦ rw a (now_close e.fd w)
  ]

  now-after_flock : (fd : ℕ) (r : Reply) (w : World) → now w ≤ now (after_flock fd r w).1
  unfolding after_flock
  now-after_flock fd granted w = omega arith
  now-after_flock fd contended w = omega arith
  now-after_flock fd failed w = now-leave true _ w

  now-after_open : (m : LockMode) (o : Option ℕ) (w : World) → now w ≤ now (after_open m o w).1
  unfolding after_open
  now-after_open m none w = omega arith
  now-after_open m (some fd) w =
      omega (arith, now_flock m fd w, now-after_flock fd (flock m fd w).0 (flock m fd w).1)

  pub now-enter_lock : (m : LockMode) (p : String) (w : World) → now w ≤ now (enter_lock m p w).1
  unfolding enter_lock
  now-enter_lock m p w = omega (
    arith,
    now_open (lock_path_for_db p) w,
    now-after_open m (open_file (lock_path_for_db p) w).0 (open_file (lock_path_for_db p) w).1,
  )
