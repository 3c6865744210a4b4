-- ===== src/Tests/LockingRuns.antt =====
-- Journal modes, scans and locks.
use hermes_cashew.Base.{
  ℕ, zero, suc, ◌≡◌, ◌↔◌, refl, Bool, true, false, List, [], ◌∷◌, none, String, arith,
}
use hermes_cashew.Locking.Lease.{leave, leave-handling}
use hermes_cashew.Locking.Journal.{
  sqlite_wal_reset_vulnerable, sqlite_wal_reset_vulnerable_iff, IsFixedRelease,
  guard_sqlite_journal, guard_sqlite_journal-safe, bootstrap_sqlite_journal,
  bootstrap_sqlite_journal-safe,
}
use hermes_cashew.Locking.Scan.{
  rows, capped_rows, capped_rows_lem, budgeted_rows, budgeted_rows_lem, read_batch, within,
}
use hermes_cashew.Tests.Samples.{machine, start_state}

sqlite_wal_reset_vulnerable_iff_example :
    (sqlite_wal_reset_vulnerable 3 44 6 ≡ false) ↔ IsFixedRelease 3 44 6
sqlite_wal_reset_vulnerable_iff_example = sqlite_wal_reset_vulnerable_iff 3 44 6

abbrev obeys : String → String → String
obeys old new = new

guard_sqlite_journal-safe_example :
    ((guard_sqlite_journal true obeys "truncate").1 ≡ "delete")
    × (true ≡ true → ◌≡◌ {A = String} "delete" "delete")
    × (true ≡ false → ◌≡◌ {A = String} "delete" "truncate")
guard_sqlite_journal-safe_example =
    guard_sqlite_journal-safe true obeys "truncate" "delete" (unfold guard_sqlite_journal in refl)

bootstrap_sqlite_journal-safe_example :
    ((bootstrap_sqlite_journal false obeys "delete").1 ≡ "wal")
    × (false ≡ false → ◌≡◌ {A = String} "wal" "wal")
    × (false ≡ true → ◌≡◌ {A = String} "wal" "delete")
bootstrap_sqlite_journal-safe_example =
    bootstrap_sqlite_journal-safe false obeys "delete" "wal"
      (unfold bootstrap_sqlite_journal in refl)

-- a budget that counts down
abbrev spend : ℕ → Bool × ℕ
spend zero = (true, 0)
spend (suc n) = (false, n)

abbrev two_rows : List ℕ
two_rows = 7 ∷ 8 ∷ []

capped_rows_lem_example : capped_rows 3 [] two_rows ≡ within 2 two_rows
capped_rows_lem_example = capped_rows_lem 3 [] two_rows (omega arith) (omega arith)

budgeted_rows_lem_example :
    budgeted_rows spend 3 1 [] two_rows
    ≡ (rows ((read_batch spend 1 two_rows).0), (read_batch spend 1 two_rows).2)
budgeted_rows_lem_example = budgeted_rows_lem spend 3 1 [] two_rows (omega arith)

leave-handling_example :
    (leave machine true (record { fd = 3; acquired = true }) start_state.world).0 ≡ none
leave-handling_example =
    leave-handling machine (record { fd = 3; acquired = true }) start_state.world
