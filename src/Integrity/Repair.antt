-- ===== src/Integrity/Repair.antt =====
-- `_apply_profile_repairs`: the operator's repair, from the admission to the commit and its check.
use hermes_cashew.Base.{
  ℕ, Bool, true, false, Option, none, some, String, str_eq, ◌==◌, ◌&&◌, ◌||◌, not, if◌then◌else◌,
}
use hermes_cashew.Base.Int.{ℤ, pos}
use hermes_cashew.Base.Value.{
  Value, null, bool, int, str, dict, Float, Fields, end, field, get, put,
}
use hermes_cashew.Integrity.Verify.{
  is_set, status_is, profile_repair_request_error, repair_verification_matches,
}
use hermes_cashew.Integrity.Delegate.{
  Asked, Profile, repair_unavailable, inspect_integrity, apply_on_connection,
}

-- the keyword arguments of `_repair_failure`
pub record Failed : Type 0 where
  pub backup_path : Option String
  pub rolled_back : Bool
  pub committed : Option Bool
  pub mutated : Bool
  pub mutation_uncertain : Bool
  pub recovery_required : Bool

abbrev pub plainly : Failed
plainly = record {
  backup_path = none;
  rolled_back = false;
  committed = some false;
  mutated = false;
  mutation_uncertain = false;
  recovery_required = false;
}

abbrev pub bool_or_null : Option Bool → Value
bool_or_null none = null
bool_or_null (some b) = bool b

abbrev pub backup_entry : String → Value
backup_entry path = dict (field "path" (str path) (field "verified" (bool true) end))

unfoldable pub repair_failure : String → Failed → Fields
repair_failure reason f =
    let report = field "schema_version" (int (pos 1)) (
      field "status" (str "unavailable") (
        field "mutated" (bool f.mutated) (
          field "confirmed" (bool true) (
            field "committed" (bool_or_null f.committed)
              (field "rolled_back" (bool f.rolled_back) (field "reason" (str reason) end)))))) in
    let uncertain =
      if f.mutation_uncertain then put "mutation_uncertain" (bool true) report else report in
    let recovery =
      if f.recovery_required then put "recovery_required" (bool true) uncertain else uncertain in
    elim f.backup_path [ none ↦ recovery | some path ↦ put "backup" (backup_entry path) recovery ]

-- the variables that the handler reads
pub record Progress : Type 0 where
  pub connected : Bool
  pub backup_path : Option String
  pub repair_result : Option Fields
  pub commit_attempted : Bool
  pub commit_succeeded : Bool

abbrev pub at_start : Progress
at_start = record {
  connected = false;
  backup_path = none;
  repair_result = none;
  commit_attempted = false;
  commit_succeeded = false;
}

pub data Exit : Type 0 where
  returns : Fields → Exit
  raises : Exit

-- the report of a repair that is committed and verified
unfoldable pub committed_report : String → Fields → Fields → Fields → Fields
committed_report path result before after =
    put "operator_workflow"
      (dict (
        field "exclusive_admission" (bool true) (
          field "sqlite_write_exclusion" (str "BEGIN IMMEDIATE") (
            field "embedding_cache" (str "unchanged_same_model_content_cache")
              (field "maintenance_epoch" (str "preserved_same_identity") end)))))
      (put "verification"
        (dict (field "before_commit" (dict before) (field "after_commit" (dict after) end)))
        (put "backup" (backup_entry path)
          (put "rolled_back" (bool false) (put "committed" (bool true) result))))

-- `equal` is `==` on values, `show` is `str`.
module _ (p : Profile) (equal : Value → Value → Bool) (show : Value → String) where
  open p use {World, in_transaction, is_file, has_api, admit, connect, begin, commit, leave}
  open p use {rollback, close, identity, create_verified_backup}

  -- where the body of `try` is: how it ends, what the handler may read, and the world
  pub record Stage : Type 0 where
    pub exit : Exit
    pub progress : Progress
    pub world : World

  unfoldable pub stage : Exit → Progress → World → Stage
  stage exit progress w = record { exit = exit; progress = progress; world = w }

  unfoldable pub matches : Asked → Fields → Fields → Bool
  matches a result report =
      repair_verification_matches equal result report a.actions a.permanence_policy

  unfoldable pub after_commit : Asked → String → Fields → Fields → Progress → World → Stage
  after_commit a path result before g w =
      let i = inspect_integrity p a.expected_model a.expected_dimension w in
      if matches a result i.0
      then stage (returns (committed_report path result before i.0)) g i.1
      else stage
          (returns (
            repair_failure "postcommit_verification_failed" (record plainly {
              backup_path = some path;
              committed = some true;
              mutated = is_set "mutated" result;
              mutation_uncertain = true;
              recovery_required = true;
            })))
          g i.1

  unfoldable pub try_commit : Asked → String → Fields → Fields → Progress → World → Stage
  try_commit a path result before g w =
      let c = commit w in
      let done =
        after_commit a path result before
          (record g { commit_attempted = true; commit_succeeded = true }) c.1 in
      if c.0 then done else stage raises (record g { commit_attempted = true }) c.1

  unfoldable pub before_commit : Asked → String → Fields → Progress → World → Stage
  before_commit a path result g w =
      let i = inspect_integrity p a.expected_model a.expected_dimension w in
      let committed = try_commit a path result i.0 g i.1 in
      if matches a result i.0
      then committed
      else stage
          (returns (
            repair_failure "precommit_verification_failed"
              (record plainly { backup_path = some path; rolled_back = true })))
          g (rollback i.1)

  -- `str(repair_result.get("reason", "repair_failed"))`
  unfoldable pub reason_of : Fields → String
  reason_of result = elim (get "reason" result) [ none ↦ "repair_failed" | some v ↦ show v ]

  unfoldable pub run_repair : Asked → String → Progress → World → Stage
  run_repair a path g w =
      let r = apply_on_connection p true a w in
      let g' : Progress = record g { repair_result = some r.0 } in
      let verified = before_commit a path r.0 g' r.1 in
      if status_is "completed" r.0 || status_is "partial" r.0
      then verified
      else stage
          (returns (
            put "repair" (dict r.0) (
              repair_failure (reason_of r.0)
                (record plainly { backup_path = some path; rolled_back = true }))))
          g' (rollback r.1)

  unfoldable pub with_backup : Asked → Progress → Option String × World → Stage
  with_backup a g (none, w) = stage raises g w
  with_backup a g (some path, w) = run_repair a path (record g { backup_path = some path }) w

  unfoldable pub with_transaction : Asked → Progress → World → Stage
  with_transaction a g w =
      let t = begin w in
      let backed = with_backup a g (create_verified_backup t.1) in
      if t.0 then backed else stage raises g t.1

  -- `expected is not None and expected != stored`
  unfoldable pub differs_model : Option String → String → Bool
  differs_model none stored = false
  differs_model (some m) stored = not (str_eq m stored)

  unfoldable pub differs_dimension : Option ℕ → ℕ → Bool
  differs_dimension none stored = false
  differs_dimension (some d) stored = not (d == stored)

  unfoldable pub with_identity : Asked → Progress → Option (String × ℕ) × World → Stage
  with_identity a g (none, w) =
      stage (returns (repair_failure "provider_identity_unavailable" plainly)) g w
  with_identity a g (some (model, dimension), w) =
      let known : Asked = record a {
        expected_model = some model;
        expected_dimension = some dimension;
        embedding_model = elim a.embedding_model [ none ↦ some model | some m ↦ some m ];
      } in
      let begun = with_transaction known g w in
      if differs_model a.expected_model model
      then stage (returns (repair_failure "embedding_model_mismatch" plainly)) g w
      else if differs_dimension a.expected_dimension dimension
      then stage (returns (repair_failure "embedding_dimension_mismatch" plainly)) g w
      else begun

  unfoldable pub with_connection : Asked → World → Stage
  with_connection a w =
      let c = connect w in
      let g : Progress = record at_start { connected = true } in
      let identified = with_identity a g (identity c.1) in
      if c.0 then identified else stage raises at_start c.1

  -- Leaving the admission can raise in place of how its body ended.
  unfoldable pub left : Stage → Stage
  left s = let l = leave s.world in stage (if l.0 then s.exit else raises) s.progress l.1

  unfoldable pub admitted : Asked → World → Stage
  admitted a w =
      let l = admit w in
      let body = left (with_connection a l.1) in if l.0 then body else stage raises at_start l.1

  -- whether the transaction was committed, as far as the handler knows
  unfoldable pub known_commit : Progress → Option Bool
  known_commit g =
      if g.commit_succeeded then some true else if g.commit_attempted then none else some false

  unfoldable pub claims_mutation : Progress → Bool
  claims_mutation g =
      g.commit_succeeded && elim g.repair_result [ none ↦ false | some r ↦ is_set "mutated" r ]

  -- the handler, with an open transaction and without
  unfoldable pub handle : Progress → World → Fields × World
  handle g w =
      if g.connected && in_transaction w
      then (
        repair_failure "operator_repair_failed"
            (record plainly { backup_path = g.backup_path; rolled_back = true }),
        rollback w,
      )
      else (
        repair_failure "operator_repair_failed" (record {
          backup_path = g.backup_path;
          rolled_back = false;
          committed = known_commit g;
          mutated = claims_mutation g;
          mutation_uncertain = g.commit_attempted && not g.commit_succeeded;
          recovery_required = g.commit_attempted || g.commit_succeeded;
        }),
        w,
      )

  unfoldable pub handled : Exit → Progress → World → Fields × World
  handled (returns report) g w = (report, w)
  handled raises g w = handle g w

  -- `except` and `finally`
  unfoldable pub concluded : Stage → Fields × World
  concluded s =
      let h = handled s.exit s.progress s.world in
      (h.0, if s.progress.connected then close h.1 else h.1)

  unfoldable pub apply_profile_repairs : Float → ℤ → ℤ → Asked → World → Fields × World
  apply_profile_repairs deadline_seconds batch_size max_items a w =
      let done = concluded (admitted a w) in
      elim (profile_repair_request_error deadline_seconds batch_size max_items
        a.permanence_policy) [
          | some reason ↦ (repair_failure reason plainly, w)
          | none ↦
              if not (is_file w)
              then (repair_failure "profile_not_found" plainly, w)
              else if not has_api
              then (repair_unavailable true, w)
              else done
        ]
