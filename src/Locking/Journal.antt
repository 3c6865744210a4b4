-- ===== src/Locking/Journal.antt =====
-- The runtimes with the WAL reset defect, and how a connection's journal mode is kept safe.
use hermes_cashew.Base.{
  ℕ, ◌≤◌, ◌<◌, ◌≡◌, ◌↔◌, ◌⊎◌, Bool, true, false, ◌&&◌, not, String, ltb, leb, ◌==◌, str_eq, eq_iff,
  if◌then◌else◌, arith,
}

unfoldable pub sqlite_wal_reset_vulnerable : ℕ → ℕ → ℕ → Bool
sqlite_wal_reset_vulnerable major minor patch =
    if not (major == 3)
    then ltb major 3
    else if ltb minor 44
    then leb 7 minor
    else if minor == 44
    then ltb patch 6
    else if leb 45 minor && ltb minor 50
    then true
    else if minor == 50
    then ltb patch 7
    else if minor == 51
    then ltb patch 3
    else false

-- The releases without the defect: from before WAL 3.7, of the two maintained branches with the
-- backport, and all from 3.51.3 on.
abbrev pub IsFixedRelease : ℕ → ℕ → ℕ → Type 0
IsFixedRelease major minor patch =
    (3 < major)
    ⊎ ((major ≡ 3)
        × ((minor < 7)
            ⊎ (((minor ≡ 44) × (6 ≤ patch))
                ⊎ (((minor ≡ 50) × (7 ≤ patch)) ⊎ (((minor ≡ 51) × (3 ≤ patch)) ⊎ (51 < minor))))))

-- The classifier finds no defect exactly in the releases of major 3 before 3.7, of 3.44 from
-- patch 6, of 3.50 from patch 7, of 3.51 from patch 3, in those after 3.51, and in majors above
-- 3.
pub sqlite_wal_reset_vulnerable_iff :
    (major minor patch : ℕ)
    → (sqlite_wal_reset_vulnerable major minor patch ≡ false) ↔ IsFixedRelease major minor patch
unfolding sqlite_wal_reset_vulnerable
sqlite_wal_reset_vulnerable_iff major minor patch = (λ h. ground arith, λ h. ground arith)

pub data JournalError : Type 0 where
  existing_wal no_delete no_wal : JournalError

pub data Result {ℓ} (A : Type ℓ) : Type ℓ where
  ok : A → Result A
  err : JournalError → Result A

-- the mode in which the connection is, accepted if it is the one that is wanted
confirm : String → JournalError → String → Result String × String
confirm wanted e mode = if str_eq mode wanted then (ok mode, mode) else (err e, mode)

-- The linked runtime: whether it has the defect, and the mode that `PRAGMA journal_mode=X` answers
-- and leaves, from the mode before and the one that is asked for.
module _ (vulnerable : Bool) (pragma : String → String → String) where
  -- the result, and the mode of the database behind the connection
  unfoldable pub guard_sqlite_journal : String → Result String × String
  unfolding confirm
  guard_sqlite_journal mode =
      if vulnerable
      then (if str_eq mode "wal"
          then (err existing_wal, mode)
          else confirm "delete" no_delete
              (if str_eq mode "delete" then mode else pragma mode "delete"))
      else (ok mode, mode)

  unfoldable pub bootstrap_sqlite_journal : String → Result String × String
  unfolding confirm
  bootstrap_sqlite_journal mode =
      if vulnerable
      then guard_sqlite_journal mode
      else confirm "wal" no_wal (if str_eq mode "wal" then mode else pragma mode "wal")

  -- A guard that returns has told the truth about the mode: on an affected runtime it is `delete`,
  -- on any other it is the mode that was found. An existing WAL database is refused unchanged.
  pub guard_sqlite_journal-safe :
      (mode m : String)
      → (guard_sqlite_journal mode).0 ≡ ok m
      → ((guard_sqlite_journal mode).1 ≡ m)
        × (vulnerable ≡ true → m ≡ "delete")
        × (vulnerable ≡ false → m ≡ mode)
  unfolding guard_sqlite_journal
  guard_sqlite_journal-safe mode m h =
      ground (arith, eq_iff mode "delete", eq_iff (pragma mode "delete") "delete")

  pub guard_sqlite_journal-wal :
      vulnerable ≡ true → guard_sqlite_journal "wal" ≡ (err existing_wal, "wal")
  unfolding guard_sqlite_journal
  guard_sqlite_journal-wal h = rw h

  -- A bootstrap that returns a mode has left the database in it: `wal` on a runtime without the
  -- defect, `delete` on one with it.
  pub bootstrap_sqlite_journal-safe :
      (mode m : String)
      → (bootstrap_sqlite_journal mode).0 ≡ ok m
      → ((bootstrap_sqlite_journal mode).1 ≡ m)
        × (vulnerable ≡ false → m ≡ "wal")
        × (vulnerable ≡ true → m ≡ "delete")
  unfolding bootstrap_sqlite_journal
  bootstrap_sqlite_journal-safe mode m h =
      ground (
        arith,
        guard_sqlite_journal-safe mode m,
        eq_iff mode "wal",
        eq_iff (pragma mode "wal") "wal",
      )
