-- ===== src/Locking/System.antt =====
-- What the locks ask of the operating system and of the clock: files opened for a lock, `flock`,
-- monotonic time in milliseconds, and a ghost list of the descriptors that are open.
use hermes_cashew.Base.{
  ℕ, ◌+◌, ◌≤◌, ◌≡◌, Bool, List, [], ◌∷◌, Option, none, some, String, ◌==◌, if◌then◌else◌, arith,
}

pub data LockMode : Type 0 where
  shared exclusive : LockMode

-- `EAGAIN` and `EWOULDBLOCK` are the contention, any other error a failure.
pub data Reply : Type 0 where
  granted contended failed : Reply

-- A descriptor that is opened is put in front, one that is closed is taken out.
abbrev pub opened : Option ℕ → List ℕ → List ℕ
opened none ds = ds
opened (some fd) ds = fd ∷ ds

abbrev pub without : ℕ → List ℕ → List ℕ
without fd [] = []
without fd (d ∷ ds) = if d == fd then ds else d ∷ without fd ds

pub without_head : (fd : ℕ) (ds : List ℕ) → without fd (fd ∷ ds) ≡ ds
without_head fd ds = ground arith

-- `unlock` and `close_file` say whether they raised. A file whose `close` raises is closed all the
-- same. Time does not run backwards, and `sleep` waits for at least what it is asked for.
pub record System : Type 1 where
  pub World : Type 0
  pub resolve : String → String
  pub open_file : String → World → Option ℕ × World
  pub flock : LockMode → ℕ → World → Reply × World
  pub unlock : ℕ → World → Bool × World
  pub close_file : ℕ → World → Bool × World
  pub now : World → ℕ
  pub sleep : ℕ → World → World
  pub descriptors : World → List ℕ
  pub descriptors_open :
      (p : String) (w : World)
      → descriptors (open_file p w).1 ≡ opened (open_file p w).0 (descriptors w)
  pub descriptors_flock :
      (m : LockMode) (fd : ℕ) (w : World) → descriptors (flock m fd w).1 ≡ descriptors w
  pub descriptors_unlock : (fd : ℕ) (w : World) → descriptors (unlock fd w).1 ≡ descriptors w
  pub descriptors_close :
      (fd : ℕ) (w : World) → descriptors (close_file fd w).1 ≡ without fd (descriptors w)
  pub descriptors_sleep : (d : ℕ) (w : World) → descriptors (sleep d w) ≡ descriptors w
  pub now_open : (p : String) (w : World) → now w ≤ now (open_file p w).1
  pub now_flock : (m : LockMode) (fd : ℕ) (w : World) → now w ≤ now (flock m fd w).1
  pub now_unlock : (fd : ℕ) (w : World) → now w ≤ now (unlock fd w).1
  pub now_close : (fd : ℕ) (w : World) → now w ≤ now (close_file fd w).1
  pub now_sleep : (d : ℕ) (w : World) → now w + d ≤ now (sleep d w)
