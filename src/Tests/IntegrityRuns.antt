-- ===== src/Tests/IntegrityRuns.antt =====
-- An operator's repair that is verified and committed, one that is rolled back, and a budget.
use hermes_cashew.Base.{
  ℕ, ◌+◌, ◌≡◌, refl, Bool, true, false, Option, none, some, String, not, member, ◌⊎◌, if◌then◌else◌,
  arith,
}
use hermes_cashew.Base.Int.{pos}
use hermes_cashew.Base.Value.{
  Value, bool, int, str, dict, finite, Fields, end, field, get, put, filter_keys,
}
use hermes_cashew.Integrity.Budget.{AuditBudget, IsBounded, incomplete, consume, consume_lem}
use hermes_cashew.Integrity.Verify.{
  is_bad_deadline, profile_repair_request_error, status_is, actionable_count_keys, agrees,
  agrees_at, any_set, is_set, is_true, keys_of, keys_of_all, matches_counts,
  repair_verification_matches, same_value, selected,
}
use hermes_cashew.Integrity.Delegate.{
  Asked, Profile, apply_on_connection, inspect_integrity, inspected, no_inspection,
  repair_unavailable, repaired, with_model,
}
use hermes_cashew.Integrity.Repair.{
  apply_profile_repairs, concluded, handled, handle, admitted, left, stage, with_connection,
  with_identity, differs_model, differs_dimension, with_transaction, with_backup, run_repair,
  after_commit, before_commit, claims_mutation, committed_report, known_commit, matches, reason_of,
  repair_failure, try_commit,
}
use hermes_cashew.Integrity.Transaction.{
  durable-apply_profile_repairs, backed_up-apply_profile_repairs,
}

abbrev budget : AuditBudget
budget = record {
  deadline = 5000;
  rows = 7;
  bytes = 100;
  audit_deadline = false;
  audit_row_cap = false;
  audit_byte_cap = false;
}

consume_lem_example :
    IsBounded (consume 10 11 64 budget).1
    × (incomplete (consume 10 11 64 budget).1 ≡ not (consume 10 11 64 budget).0)
    × ((consume 10 11 64 budget).1.rows ≡ (if (consume 10 11 64 budget).0 then 7 + 1 else 7))
consume_lem_example =
    consume_lem 10 11 64 budget (record { rows_within = omega arith; bytes_within = omega arith })

-- a file of one number, and a transaction on it
record Disk : Type 0 where
  content : ℕ
  working : ℕ
  saved : Option ℕ
  is_open : Bool

abbrev counts : ℕ → Value
counts n = dict (field "missing_vec" (int (pos n)) end)

abbrev inspection : ℕ → Fields
inspection n = field "status" (str "ok") (field "counts" (counts n) end)

abbrev outcome : Fields
outcome =
    field "status" (str "completed")
      (field "mutated" (bool true) (field "remaining" (counts 0) end))

commits : (w : Disk) → true ≡ false → w.working ≡ w.content
commits w h = absurd (cc h)

-- The repair writes 9, and the inspection finds `n` defects.
abbrev sample_profile : ℕ → Profile
sample_profile n = record {
  World = Disk;
  Content = ℕ;
  durable = λ w. w.content;
  backed_up = λ w. w.saved;
  in_transaction = λ w. w.is_open;
  is_file = λ w. true;
  has_api = true;
  admit = λ w. (true, w);
  connect = λ w. (true, w);
  begin = λ w. (true, record w { is_open = true; working = w.content });
  commit = λ w. (true, record w { is_open = false; content = w.working });
  leave = λ w. (true, w);
  rollback = λ w. record w { is_open = false };
  close = λ w. w;
  identity = λ w. (some ("m", 2), w);
  create_verified_backup = λ w. (some "backups/b.db", record w { saved = some w.content });
  inspect = λ m d w. (some (inspection n), w);
  repair = λ a w. (some outcome, record w { working = 9 });
  admit_durable = λ w. refl;
  connect_durable = λ w. refl;
  begin_durable = λ w. refl;
  leave_durable = λ w. refl;
  rollback_durable = λ w. refl;
  close_durable = λ w. refl;
  identity_durable = λ w. refl;
  backup_durable = λ w. refl;
  inspect_durable = λ m d w. refl;
  repair_durable = λ a w. refl;
  commit_open = λ w h _. commits w h;
  commit_closed = λ w h. refl;
  leave_open = λ w. refl;
  inspect_open = λ m d w. refl;
  backup_holds = λ w h. refl;
  commit_backup = λ w. refl;
  leave_backup = λ w. refl;
  rollback_backup = λ w. refl;
  close_backup = λ w. refl;
  inspect_backup = λ m d w. refl;
  repair_backup = λ a w. refl;
}

abbrev disk : Disk
disk = record { content = 5; working = 5; saved = none; is_open = false }

abbrev asked : Asked
asked = record {
  expected_model = none;
  expected_dimension = some 2;
  embedding_model = none;
  require_vec_parity = true;
  actions = none;
  permanence_policy = "report";
}

abbrev same_number : Value → Value → Bool
same_number v w = true

abbrev shown : Value → String
shown v = "repair_failed"

abbrev repair_of : ℕ → Fields × Disk
repair_of n =
    apply_profile_repairs (sample_profile n) same_number shown (finite (pos 0)) (pos 100) (pos 1000)
      asked disk

-- with nothing left to repair it commits, and the old content is saved
committed_run :
    (get "committed" (repair_of 0).0 ≡ some (bool true))
    × ((repair_of 0).1.content ≡ 9)
    × ((repair_of 0).1.saved ≡ some 5)
unfolding apply_profile_repairs concluded handled handle admitted left stage with_connection
    with_identity differs_model differs_dimension with_transaction with_backup run_repair
    after_commit before_commit claims_mutation committed_report known_commit matches reason_of
    repair_failure try_commit is_bad_deadline profile_repair_request_error status_is
    actionable_count_keys agrees agrees_at any_set is_set is_true keys_of keys_of_all matches_counts
    repair_verification_matches same_value selected apply_on_connection inspect_integrity inspected
    no_inspection repair_unavailable repaired with_model get put filter_keys member
committed_run = (refl, refl, refl)

rolled_back_run : get "committed" (repair_of 1).0 ≡ some (bool false)
unfolding apply_profile_repairs concluded handled handle admitted left stage with_connection
    with_identity differs_model differs_dimension with_transaction with_backup run_repair
    after_commit before_commit claims_mutation committed_report known_commit matches reason_of
    repair_failure try_commit is_bad_deadline profile_repair_request_error status_is
    actionable_count_keys agrees agrees_at any_set is_set is_true keys_of keys_of_all matches_counts
    repair_verification_matches same_value selected apply_on_connection inspect_integrity inspected
    no_inspection repair_unavailable repaired with_model get put filter_keys member
rolled_back_run = refl

durable-apply_profile_repairs_example : (repair_of 1).1.content ≡ 5
durable-apply_profile_repairs_example =
    durable-apply_profile_repairs (sample_profile 1) same_number shown (finite (pos 0)) (pos 100)
      (pos 1000) asked disk rolled_back_run

backed_up-apply_profile_repairs_example :
    ((repair_of 0).1.content ≡ 5) ⊎ ((repair_of 0).1.saved ≡ some 5)
backed_up-apply_profile_repairs_example =
    backed_up-apply_profile_repairs (sample_profile 0) same_number shown (finite (pos 0)) (pos 100)
      (pos 1000) asked disk
