-- ===== src/Lib.antt =====
-- A model of the memory provider of hermes-cashew, plugins/memory/cashew/, with the theorems on it.
--
-- The provider gives a host a memory kept in SQLite. Its own logic, apart from the upstream library
-- that it wraps, is to admit operations to two files under locks, to keep the settings, to queue the
-- turns of a conversation for a worker, to warm up results in the background, to bound the calls of
-- an auxiliary model, to account for all of that, and to let nothing private out of the process.
--
--   Base        numbers, Booleans, lists, texts, integers; Base/Value the dynamic values and the
--               dictionaries of the language, Base/Dict the laws of the dictionaries.
--   Health      health.py: `OutcomeLedger`, each method a function on the record (the lock makes it
--               one step). Health/Reconcile has the calls that move work, Health/Tools the tool calls.
--   Telemetry   error_tracking.py: Buckets (`_bounded_int`, `_duration_bucket`), Events (the
--               allowlists, `_safe_metadata`, `_event`, `_canonical_event`), Privacy and Canonical
--               (theorems), Worker (`SentryTelemetry` with its queue and process).
--   Locking     locking.py: Journal (the runtimes with the WAL reset defect, the journal guards), Scan
--               (`_bounded_rows`), Lease (`try_maintenance_lock`, `try_shared_lock`), over the
--               interface of Locking/System.
--   Admission   admission.py: Nested (the checks of a nested admission), Acquire (one round of the
--               two locks on an exit stack), Operation (`admit_operation`); Balance and Termination
--               have the theorems, Acquire/Holds and Acquire/Time their lemmas.
--   Config      config.py, the settings: Fields (defaults and validation), Files (reading, the
--               environment, the atomic save); Normal, RoundTrip and Save have the theorems.
--   Auxiliary   config.py, the auxiliary calls: Role (`_raw_role_mapping`, `_message_content`),
--               Prompt (`_trim_auxiliary_prompt`), Calls (`_BoundedAuxiliaryModel` and the shared
--               permits), Permits (theorems).
--   Sync        __init__.py: Turns (`sync_turn` and the queue), Worker (`_worker_loop` and the
--               sentinel of `shutdown`), Calls, Accounting, Drain and Window (theorems). It calls
--               the ledger of Health and the flag of Config/Fields.
--   Prefetch    __init__.py: Identity, Slot (`queue_prefetch`, `_stage_prefetch_result`, the
--               consumption), Worker (`_prefetch_worker_loop`, `_run_prefetch_request`), Current
--               (theorems).
--   Scrub       log_filter.py: Arguments (`_safe_argument` and the two exceptions to it), Filter
--               (`ScrubFilter.filter`), Clean (theorems).
--   Embedding   embedding_process.py and embedding_worker.py. Frame (`_read_exact`, `_receive`, `_send`
--               of both sides), with Reading, RoundTrip and Agreement; Request (the checks and the JSON
--               document of `encode`), with Bounds; Messages (the checks of a hello and of a reply)
--               and Worker (`main`), with Handshake and Exchange; Supervisor, Requests and
--               Steps (`EmbeddingSupervisor`: owner, launches, failures, `_terminate`, `_reap`,
--               `close`), with Unchanged, Sound, Ownership, Callbacks, Closing, Lifecycle and Backoff.
--   Integrity   integrity.py: Budget (`_AuditBudget`), Verify (`_actionable_count_keys`,
--               `_repair_verification_matches`), Delegate (`inspect_integrity` and
--               `apply_integrity_repairs` on a connection), Repair (`_apply_profile_repairs`),
--               Transaction (theorems).
--   Think       __init__.py: `_run_think_cycle_if_due` and `_recover_think_claim` over the three rows
--               that they keep; Claims and Period have the theorems.
--   Tests       concrete runs, and each theorem applied at a concrete input.
--
-- Interleavings. What a lock makes one step is one function. Threads are sequences of calls (`Call`,
-- `Move`, `Stage`) in any order, so a theorem on `run` is one on each schedule. In `sync_turn`, whose
-- lock does not cover the worker's reads of the queue, two Booleans say whether the worker comes in.
-- In Embedding/Steps an `Event` is what one thread does between two waits, with what the wait came
-- to. The threads of `close`, of reapers and of `_release_owner` are counted at each point of the
-- code where another thread may come in; `_terminate` is one step, also where `close` calls it
-- without the lock. The calls of Telemetry/Worker and of Auxiliary/Calls are split where they
-- release their lock.
--
-- Parameters. Locking/System stands for flock, files and the monotonic clock, in milliseconds: an
-- opened file is one more descriptor, a closed one is gone, also when close raises, and time does not
-- run backwards. The tests of a path (`is_absolute`, `is_within`) and the conversions of a text
-- (`Parsers`) are pathlib's and the language's, as is where a source file lies. `pragma` answers for
-- SQLite, `consume` for a budget. In Config/Files a `Stop` says how an operation of the save ends early.
-- Integrity/Delegate has `Profile` for SQLite, the backup and upstream's integrity functions: only a
-- commit changes the file, one that raises and leaves its transaction open has written nothing, and
-- a backup holds the file's content.
-- Embedding/Worker takes SentenceTransformer, numpy and the length of a JSON document as `Library`;
-- JSON documents on the socket are
-- read back as the dictionaries that were written, and a list of wakes says how the channel cuts the
-- bytes and when the deadline comes.
-- A finite double is a multiple of 2 ^ -1074, which is exact.
--
-- Fuel. `admit_operation` and the scans take fuel for their loops; one round for each millisecond of
-- the deadline and one more, and a batch for each row and one more, are proved to be enough.
--
-- Not modelled: the SQL of locking.py, of verify.py and of the scans of integrity.py, the
-- initialization and the tool handlers of __init__.py, embedding_compat.py, tracing.py, metrics.py,
-- the handlers that log_filter.py installs, the sleep scripts, and _vendor, a copy of another project.
pub mod Base
pub mod Health
pub mod Telemetry
pub mod Locking
pub mod Admission
pub mod Config
pub mod Auxiliary
pub mod Embedding
pub mod Integrity
pub mod Prefetch
pub mod Scrub
pub mod Sync
pub mod Think
pub mod Tests
