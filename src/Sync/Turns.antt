-- ===== src/Sync/Turns.antt =====
-- `sync_turn` and the state that it shares with the worker. The lock `_sync_state_lock` makes it one
-- step, but for the queue, which the worker may read in between.
use hermes_cashew.Base.{
  ℕ, zero, suc, ◌+◌, ◌-◌, Bool, true, false, not, ◌&&◌, ◌||◌, List, [], ◌∷◌, ◌++◌, Option, none,
  some, String, str_eq, length, ltb, if◌then◌else◌,
}
use hermes_cashew.Base.Value.{Fields}
use hermes_cashew.Config.Fields.{is_feature_enabled}
use hermes_cashew.Health.{OutcomeLedger, admit, reject, drop_pending}

pub record Turn : Type 0 where
  pub user_content : String
  pub assistant_content : String
  pub session : String

-- A queued turn, or `_SHUTDOWN`.
pub data Item : Type 0 where
  turn : Turn → Item
  shutdown : Item

-- The settings that `sync_turn` and the worker read.
pub record Settings : Type 0 where
  pub auto_extraction : Bool
  pub features : Fields

-- What decides whether a turn is let in; `has_queue` says that `_sync_queue` is not None.
pub record Gate : Type 0 where
  pub write_enabled : Bool
  pub embedding_identity_ready : Bool
  pub config : Option Settings
  pub initializing : Bool
  pub shutdown_started : Bool
  pub has_queue : Bool

-- The queue, with the count of `unfinished_tasks` that `task_done` brings down; `hand` are the items
-- that the worker has taken and not started, `running` its turn with the generation of its start.
pub record Provider : Type 0 where
  pub gate : Gate
  pub session_id : String
  pub last_assistant : String
  pub dropped_turn_count : ℕ
  pub generation : ℕ
  pub outcomes : OutcomeLedger
  pub items : List Item
  pub unfinished : ℕ
  pub hand : List Item
  pub running : Option (Turn × ℕ)
  pub exited : Bool

abbrev pub maxsize : ℕ
maxsize = 16

-- `q.put_nowait`: whether there was room, and the state
unfoldable pub put_nowait : Item → Provider → Bool × Provider
put_nowait i p =
    if ltb (length p.items) maxsize
    then (true, record p { items = p.items ++ i ∷ []; unfinished = p.unfinished + 1 })
    else (false, p)

-- `q.get_nowait` and its `task_done`: whether there was an item, and the state
unfoldable pub evict : Provider → Bool × Provider
evict p = elim p.items [
  | [] ↦ (false, p)
  | i ∷ rest ↦ (true, record p { items = rest; unfinished = p.unfinished - 1 })
]

abbrev pub lets_in : Option Settings → Bool
lets_in none = false
lets_in (some c) = c.auto_extraction

unfoldable pub is_admitted : Gate → Bool
is_admitted g =
    g.write_enabled
    && (g.embedding_identity_ready
        && (lets_in g.config && (not g.initializing && (not g.shutdown_started && g.has_queue))))

-- the batch behind the first item: up to `k` more, a sentinel the last of them
unfoldable pub batch_rest : ℕ → List Item → List Item × List Item
batch_rest zero items = ([], items)
batch_rest (suc k) [] = ([], [])
batch_rest (suc k) (shutdown ∷ rest) = (shutdown ∷ [], rest)
batch_rest (suc k) (turn t ∷ rest) = let (taken, left) = batch_rest k rest in (turn t ∷ taken, left)

abbrev pub batches : Option Settings → Bool
batches none = false
batches (some c) = is_feature_enabled c.features "experimental_batch_sync"

abbrev pub batch_size : ℕ
batch_size = 8

abbrev pub is_idle : Provider → Bool
is_idle p =
    not p.exited
    && elim p.running [ none ↦ elim p.hand [ [] ↦ true | i ∷ is ↦ false ] | some t ↦ false ]

-- what a worker with nothing to do takes out of the queue
unfoldable pub taken_from : List Item → Provider → Provider
taken_from [] p = if p.gate.shutdown_started then record p { exited = true } else p
taken_from (shutdown ∷ rest) p = record p {
  items = rest;
  unfinished = p.unfinished - 1;
  exited = true;
}
taken_from (turn t ∷ rest) p =
    if batches p.gate.config
    then (let (more, left) = batch_rest (batch_size - 1) rest in
        record p { items = left; hand = turn t ∷ more })
    else record p { items = rest; hand = turn t ∷ [] }

unfoldable pub get_items : Provider → Provider
unfolding taken_from
get_items p = if is_idle p then taken_from p.items p else p

-- a point at which the worker may have come in
abbrev pub raced : Bool → Provider → Provider
raced b p = if b then get_items p else p

-- after a second refusal of the queue the new turn is given up
abbrev pub settle_second : Bool × Provider → Provider
settle_second (true, p) = record p { outcomes = admit p.outcomes }
settle_second (false, p) = record p { outcomes = reject p.outcomes }

abbrev pub count_evicted : Bool × Provider → Provider
count_evicted (true, p) = record p {
  dropped_turn_count = p.dropped_turn_count + 1;
  outcomes = drop_pending p.outcomes;
}
count_evicted (false, p) = p

-- the drop-oldest policy, `second` is whether the worker comes in once more
unfoldable pub drop_oldest : Turn → Bool → Provider → Provider
unfolding put_nowait evict get_items
drop_oldest t second p =
    settle_second (put_nowait (turn t) (raced second (count_evicted (evict p))))

abbrev pub settle_first : Turn → Bool → Bool → Bool × Provider → Provider
settle_first t first second (true, p) = record p { outcomes = admit p.outcomes }
settle_first t first second (false, p) = drop_oldest t second (raced first p)

abbrev pub refuse : Provider → Provider
refuse p =
    if p.gate.has_queue && (p.gate.initializing || p.gate.shutdown_started)
    then record p { outcomes = reject p.outcomes }
    else p

-- The two texts of a turn, with the session that is named or the provider's own.
abbrev pub new_turn : String → String → String → Provider → Turn
new_turn user assistant session p = record {
  user_content = user;
  assistant_content = assistant;
  session = if str_eq session "" then p.session_id else session;
}

-- the assistant's text is kept for the cues of the next prefetch
abbrev pub heard : String → Provider → Provider
heard assistant p = record p {
  last_assistant = if str_eq assistant "" then p.last_assistant else assistant;
}

-- The two Booleans say whether the worker comes in between the calls of the queue.
unfoldable pub sync_turn : String → String → String → Bool → Bool → Provider → Provider
unfolding is_admitted put_nowait drop_oldest
sync_turn user assistant session first second p =
    let t = new_turn user assistant session p in
    if is_admitted p.gate
    then settle_first t first second (put_nowait (turn t) (heard assistant p))
    else refuse p
