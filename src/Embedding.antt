-- ===== src/Embedding.antt =====
-- plugins/memory/cashew/embedding_process.py, embedding_worker.py and embedding.py: the worker
-- process that computes embeddings and its supervisor. The shared names: the failures that
-- cross the boundary, the exceptions inside it, and the limits that both sides write out.
pub mod Frame
pub mod Reading
pub mod RoundTrip
pub mod Agreement
pub mod Request
pub mod Bounds
pub mod Messages
pub mod Worker
pub mod Handshake
pub mod Exchange
pub mod Supervisor
pub mod Requests
pub mod Steps
pub mod Unchanged
pub mod Sound
pub mod Ownership
pub mod Callbacks
pub mod Closing
pub mod Lifecycle
pub mod Backoff
use hermes_cashew.Base.{ℕ, ◌*◌, String}

pub data Failure : Type 0 where
  busy startup timeout exited protocol closed owned : Failure

-- `unavailable` is EmbeddingUnavailable, `os_error` an OSError of the channel, which
-- ConnectionError and BrokenPipeError are, and `value_error` what parsing a reply raises.
pub data Exception : Type 0 where
  unavailable : Failure → Exception
  os_error value_error : Exception

pub data Result {ℓ} (A : Type ℓ) : Type ℓ where
  ok : A → Result A
  raised : Exception → Result A

abbrev pub max_frame : ℕ
max_frame = 16 * 1024 * 1024

abbrev pub max_dimension : ℕ
max_dimension = 65536

abbrev pub default_embedding_device : String
default_embedding_device = "cpu"
