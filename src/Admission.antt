-- ===== src/Admission.antt =====
-- plugins/memory/cashew/admission.py: one admission of an operation to a graph and a cache.
-- A supervisor is known by its identity, a number; an embedding generation by its text.
pub mod Nested
pub mod Acquire
pub mod Operation
pub mod Balance
pub mod Termination
use hermes_cashew.Base.{ℕ, Bool, Option, String, true, false, if◌then◌else◌}

pub record OperationAdmission : Type 0 where
  pub graph_path : Option String
  pub cache_path : Option String
  pub model : Option String
  pub embedding_dim : Option ℕ
  pub vec_dim : Option ℕ
  pub epoch : Option ℕ
  pub supervisor : Option ℕ
  pub embedding_generation : Option String
  pub graph_lease : Option ℕ
  pub cache_lease : Option ℕ
  pub exclusive : Bool
  pub cache_exclusive : Bool

-- The keyword arguments of `admit_operation`, the paths made canonical; `deadline` is in
-- milliseconds, 0 for a negative one.
pub record Request : Type 0 where
  pub graph : Option String
  pub cache : Option String
  pub model : Option String
  pub embedding_dim : Option ℕ
  pub vec_dim : Option ℕ
  pub epoch : Option ℕ
  pub supervisor : Option ℕ
  pub embedding_generation : Option String
  pub exclusive : Bool
  pub cache_exclusive : Bool
  pub deadline : ℕ

pub data AdmissionError : Type 0 where
  no_identity same_lock_file : AdmissionError
  identity_mismatch model_mismatch dimension_mismatch vec_mismatch epoch_mismatch : AdmissionError
  supervisor_mismatch generation_mismatch cache_upgrade graph_upgrade : AdmissionError
  deadline_exceeded lease_closed lease_transferred no_owner : AdmissionError

-- `AdmissionLeaseOwner`, without the stack that it holds
pub record Owner : Type 0 where
  pub transferred : Bool
  pub closed : Bool

abbrev pub new_owner : Owner
new_owner = record { transferred = false; closed = false }

unfoldable pub transfer : Owner → Option AdmissionError × Owner
transfer o =
    if o.closed
    then (Option.some lease_closed, o)
    else if o.transferred
    then (Option.some lease_transferred, o)
    else (Option.none, record o { transferred = true })
