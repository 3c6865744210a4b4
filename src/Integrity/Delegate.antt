-- ===== src/Integrity/Delegate.antt =====
-- The calls of upstream's integrity functions on a connection: `inspect_integrity`, and
-- `apply_integrity_repairs` for a connection that the caller owns. SQLite and upstream are an
-- interface.
use hermes_cashew.Base.{
  ℕ, ◌≡◌, Bool, true, false, List, Option, none, some, String, str_eq, not, if◌then◌else◌,
}
use hermes_cashew.Base.Int.{pos}
use hermes_cashew.Base.Value.{
  null, bool, int, str, seq, dict, nil, Fields, end, field, put, filter_keys,
}

-- the arguments that a repair passes on
pub record Asked : Type 0 where
  pub expected_model : Option String
  pub expected_dimension : Option ℕ
  pub embedding_model : Option String
  pub require_vec_parity : Bool
  pub actions : Option (List String)
  pub permanence_policy : String

-- The profile's file, the connection and upstream. `durable` is what the next reader of the file
-- finds, `backed_up` what the newest verified backup holds. A `false` or a `none` is an exception,
-- but for `identity`, which is `_profile_identity`; `rollback` and `close` do not raise.
pub record Profile : Type 1 where
  pub World : Type 0
  pub Content : Type 0
  pub durable : World → Content
  pub backed_up : World → Option Content
  pub in_transaction : World → Bool
  pub is_file : World → Bool
  -- whether `_upstream_integrity_api` finds both functions
  pub has_api : Bool
  pub admit : World → Bool × World
  pub connect : World → Bool × World
  pub begin : World → Bool × World
  pub commit : World → Bool × World
  pub leave : World → Bool × World
  pub rollback : World → World
  pub close : World → World
  pub identity : World → Option (String × ℕ) × World
  pub create_verified_backup : World → Option String × World
  pub inspect : Option String → Option ℕ → World → Option Fields × World
  pub repair : Asked → World → Option Fields × World
  -- nothing but a commit changes what is durable
  pub admit_durable : (w : World) → durable (admit w).1 ≡ durable w
  pub connect_durable : (w : World) → durable (connect w).1 ≡ durable w
  pub begin_durable : (w : World) → durable (begin w).1 ≡ durable w
  pub leave_durable : (w : World) → durable (leave w).1 ≡ durable w
  pub rollback_durable : (w : World) → durable (rollback w) ≡ durable w
  pub close_durable : (w : World) → durable (close w) ≡ durable w
  pub identity_durable : (w : World) → durable (identity w).1 ≡ durable w
  pub backup_durable : (w : World) → durable (create_verified_backup w).1 ≡ durable w
  pub inspect_durable :
      (m : Option String) (d : Option ℕ) (w : World) → durable (inspect m d w).1 ≡ durable w
  pub repair_durable : (a : Asked) (w : World) → durable (repair a w).1 ≡ durable w
  -- a commit that raises and leaves the transaction open has written nothing
  pub commit_open :
      (w : World)
      → (commit w).0 ≡ false
      → in_transaction (commit w).1 ≡ true
      → durable (commit w).1 ≡ durable w
  -- one that succeeds has ended the transaction; leaving the admission and an inspection neither
  -- end nor begin one
  pub commit_closed : (w : World) → (commit w).0 ≡ true → in_transaction (commit w).1 ≡ false
  pub leave_open : (w : World) → in_transaction (leave w).1 ≡ in_transaction w
  pub inspect_open :
      (m : Option String) (d : Option ℕ) (w : World)
      → in_transaction (inspect m d w).1 ≡ in_transaction w
  -- a backup holds what was durable, and the rest leaves it alone
  pub backup_holds :
      (w : World) {p : String}
      → (create_verified_backup w).0 ≡ some p
      → backed_up (create_verified_backup w).1 ≡ some (durable w)
  pub commit_backup : (w : World) → backed_up (commit w).1 ≡ backed_up w
  pub leave_backup : (w : World) → backed_up (leave w).1 ≡ backed_up w
  pub rollback_backup : (w : World) → backed_up (rollback w) ≡ backed_up w
  pub close_backup : (w : World) → backed_up (close w) ≡ backed_up w
  pub inspect_backup :
      (m : Option String) (d : Option ℕ) (w : World) → backed_up (inspect m d w).1 ≡ backed_up w
  pub repair_backup : (a : Asked) (w : World) → backed_up (repair a w).1 ≡ backed_up w

abbrev pub is_expected_model : String → Bool
is_expected_model key = str_eq key "expected_model"

-- the inspections that are not upstream's
unfoldable pub no_inspection : String → Fields
no_inspection reason = field "schema_version" (int (pos 1)) (
    field "status" (str "unavailable") (
      field "read_only" (bool true)
        (field "mutated" (bool false) (field "reason" (str reason) end))))

-- what the adapter makes of upstream's report
unfoldable pub inspected : Option Fields → Fields
inspected none = no_inspection "upstream_integrity_inspection_failed"
inspected (some report) =
    put "adapter" (dict (field "delegated_to" (str "core.integrity.inspect_integrity") end)) (
      put "mutated" (bool false)
        (put "read_only" (bool true) (filter_keys (λ k. not (is_expected_model k)) report)))

-- the reports of a repair that does not reach upstream
unfoldable pub rejected : Bool → String → Fields
rejected confirmed reason = field "schema_version" (int (pos 1)) (
    field "status" (str "rejected") (
      field "mutated" (bool false)
        (field "confirmed" (bool confirmed) (field "reason" (str reason) end))))

unfoldable pub repair_unavailable : Bool → Fields
repair_unavailable confirm = field "schema_version" (int (pos 1)) (
    field "status" (str "unavailable") (
      field "mutated" (bool false) (
        field "confirmed" (bool confirm) (
          field "reason" (str "stable_targeted_repair_api_unavailable") (
            field "message"
              (str
                "Cashew repair remains unavailable because this installed Cashew does not provide the connection-aware targeted repair API.")
              (field "repairs" (seq nil) end))))))

unfoldable pub repaired : Option Fields → Fields
repaired none = field "schema_version" (int (pos 1)) (
    field "status" (str "unavailable") (
      field "mutated" null (
        field "mutation_uncertain" (bool true) (
          field "confirmed" (bool true)
            (field "reason" (str "upstream_integrity_repair_failed") end)))))
repaired (some report) =
    put "adapter" (dict (field "delegated_to" (str "core.integrity.repair_integrity") end))
      (filter_keys (λ k. not (is_expected_model k)) (put "confirmed" (bool true) report))

module _ (p : Profile) where
  open p use {World, has_api, in_transaction, inspect, repair}

  unfoldable pub inspect_integrity : Option String → Option ℕ → World → Fields × World
  inspect_integrity model dimension w =
      let r = inspect model dimension w in
      if has_api
      then (inspected r.0, r.1)
      else (no_inspection "stable_targeted_integrity_api_unavailable", w)

  -- without a model of its own the repair writes the expected one
  unfoldable pub with_model : Asked → Asked
  with_model a = record a {
    embedding_model = elim a.embedding_model [ none ↦ a.expected_model | some m ↦ some m ];
  }

  -- `apply_integrity_repairs` with a connection and no path
  unfoldable pub apply_on_connection : Bool → Asked → World → Fields × World
  apply_on_connection confirm a w =
      let r = repair (with_model a) w in
      if not confirm
      then (rejected false "explicit_confirmation_required", w)
      else if not (in_transaction w)
      then (rejected true "outer_transaction_required", w)
      else if not has_api
      then (repair_unavailable true, w)
      else (repaired r.0, r.1)
