-- ===== src/Tests/AdmissionRuns.antt =====
-- Admissions on the sample host.
use hermes_cashew.Base.{◌≡◌, ◌≢◌, ◌↔◌, ◌++◌, refl, true, false, [], ◌∷◌, none, some, arith}
use hermes_cashew.Locking.Lease.{enter_lock, leave}
use hermes_cashew.Admission.{OperationAdmission}
use hermes_cashew.Admission.Nested.{identity_error, nested_error, nested_error_iff, Covers}
use hermes_cashew.Admission.Acquire.{acquire_round, close_stack, try_lock}
use hermes_cashew.Admission.Acquire.Holds.{files}
use hermes_cashew.Admission.Operation.{
  admit_operation, admit_rounds, run_admitted, close_owner, out_of_fuel, returned,
}
use hermes_cashew.Admission.Balance.{admit_operation-balanced}
use hermes_cashew.Admission.Termination.{admit_operation-ends}
use hermes_cashew.Tests.Samples.{machine, start_state, request, body, body-IsBalanced, body-Ends}

-- the operation is admitted and returns
admitted_run : (admit_operation machine 3 request body start_state).outcome ≡ returned 7
unfolding admit_operation identity_error admit_rounds acquire_round try_lock enter_lock run_admitted
    close_owner close_stack leave
admitted_run = refl

abbrev parent : OperationAdmission
parent = record {
  graph_path = some "brain.db";
  cache_path = some "cache.db";
  model = some "m";
  embedding_dim = some 384;
  vec_dim = some 384;
  epoch = some 1;
  supervisor = none;
  embedding_generation = none;
  graph_lease = some 4;
  cache_lease = some 5;
  exclusive = true;
  cache_exclusive = false;
}

nested_error_iff_example : (nested_error parent request ≡ none) ↔ Covers parent request
nested_error_iff_example = nested_error_iff parent request

admit_operation-balanced_example :
    (admit_operation machine 3 request body start_state).state.world.files
    ≡ files (admit_operation machine 3 request body start_state).kept ++ (3 ∷ [])
admit_operation-balanced_example =
    admit_operation-balanced machine body body-IsBalanced 3 request start_state

admit_operation-ends_example :
    (admit_operation machine 3 request body start_state).outcome ≢ out_of_fuel
admit_operation-ends_example =
    admit_operation-ends machine body body-Ends 3 request start_state (omega arith)
