-- ===== src/Think.antt =====
-- plugins/memory/cashew/__init__.py: the think cycle of the provider, `_run_think_cycle_if_due`
-- and `_recover_think_claim`. The three rows of the metadata table are fields, and a transaction
-- that fails leaves them.
pub mod Claims
pub mod Period
use hermes_cashew.Base.{
  ℕ, zero, suc, ◌+◌, ◌-◌, Bool, true, false, List, [], ◌∷◌, ◌++◌, Option, none, some, String,
  str_eq, member, ◌&&◌, ◌||◌, not, if◌then◌else◌,
}
use hermes_cashew.Base.Int.{ℤ, pos, negsuc, ltb_ℤ}

-- The rows, `_think_claim_state`, and the epochs of the calls of upstream's `think_cycle` so far.
pub record Thinker : Type 0 where
  pub think_counter : Option String
  pub think_claim_epoch : Option String
  pub think_claim_state : Option String
  pub claim_state : String
  pub calls : List String

-- what the opaque call comes to: nodes or edges, nothing new, an exception, the end of the process
pub data Thought : Type 0 where
  progress idle fails dies : Thought

-- how the second transaction ends: it commits, does not begin, or fails later
pub data Finish : Type 0 where
  commits locked aborts : Finish

-- One call of the function: whether it is admitted with the current identity and begins its first
-- transaction, the epoch that it would claim, whether that transaction fails to commit, what the
-- opaque call comes to, and the second transaction.
pub record Round : Type 0 where
  pub admitted : Bool
  pub epoch : String
  pub claim_error : Bool
  pub thought : Thought
  pub finish : Finish

pub data Event : Type 0 where
  round : Round → Event
  -- a start of the provider, whose transaction may fail
  recover : Bool → Event

unfoldable pub or_default : Option String → String → String
or_default none d = d
or_default (some s) d = s

unfoldable pub blocks : String → Bool
blocks state = member state ("in_flight" ∷ "failed" ∷ "partial" ∷ "uncertain" ∷ [])

-- `int(raw) + 1`
abbrev pub suc_ℤ : ℤ → ℤ
suc_ℤ (pos n) = pos (suc n)
suc_ℤ (negsuc zero) = pos 0
suc_ℤ (negsuc (suc n)) = negsuc n

-- `max(0, counter - interval)`
abbrev pub less_interval : ℤ → ℕ → ℤ
less_interval (pos n) interval = pos (n - interval)
less_interval (negsuc n) interval = pos 0

unfoldable pub is_row : Option String → String → Bool
is_row none text = false
is_row (some row) text = str_eq row text

-- `parse` is `int` on a text, `show` is `str` on a number.
module _ (parse : String → Option ℤ) (show : ℤ → String) (interval : ℕ) where
  -- the second transaction, for the claim of `epoch` at `counter`
  unfoldable pub settle : String → ℤ → String → Thinker → Thinker
  settle epoch counter terminal t =
      if is_row t.think_claim_epoch epoch && is_row t.think_claim_state "in_flight"
      then record t {
        think_counter =
            if str_eq terminal "completed"
            then elim t.think_counter [
              | none ↦ none
              | some c ↦ some (show (less_interval counter interval))
            ]
            else t.think_counter;
        think_claim_state = some terminal;
        claim_state = terminal;
      }
      else t

  -- The flag in memory is set before the commit.
  unfoldable pub finish_claim : Finish → String → ℤ → String → Thinker → Thinker
  finish_claim commits epoch counter terminal t = settle epoch counter terminal t
  finish_claim locked epoch counter terminal t = t
  finish_claim aborts epoch counter terminal t = record t {
    claim_state = (settle epoch counter terminal t).claim_state;
  }

  unfoldable pub terminal_of : Thought → String
  terminal_of progress = "completed"
  terminal_of idle = "failed"
  terminal_of fails = "uncertain"
  terminal_of dies = "uncertain"

  -- the opaque call, and what follows it if the process lives
  unfoldable pub think : Thought → Round → ℤ → Thinker → Thinker
  think dies r counter t = record t { calls = t.calls ++ (r.epoch ∷ []) }
  think outcome r counter t =
      finish_claim r.finish r.epoch counter (terminal_of outcome)
        (record t { calls = t.calls ++ (r.epoch ∷ []) })

  -- The flag in memory is set before the commit of the claim.
  unfoldable pub claim : Round → ℤ → Thinker → Thinker
  claim r counter t =
      let claimed : Thinker = record t {
        think_counter = some (show counter);
        think_claim_epoch = some r.epoch;
        think_claim_state = some "in_flight";
        claim_state = "in_flight";
      } in
      if r.claim_error
      then record t { claim_state = "in_flight" }
      else think r.thought r counter claimed

  -- the counter that was read, if it is a number
  unfoldable pub count : Round → Option ℤ → Thinker → Thinker
  count r none t = if r.claim_error then t else record t { think_counter = some "0" }
  count r (some z) t =
      if ltb_ℤ (suc_ℤ z) (pos interval)
      then if r.claim_error then t else record t { think_counter = some (show (suc_ℤ z)) }
      else claim r (suc_ℤ z) t

  -- `enabled` is the guard on the settings and the model.
  unfoldable pub run_think_cycle_if_due : Bool → Round → Thinker → Thinker
  run_think_cycle_if_due enabled r t =
      if not enabled || not r.admitted
      then t
      else if blocks (or_default t.think_claim_state "none")
      then t
      else count r (parse (or_default t.think_counter "0")) t

  unfoldable pub recover_think_claim : Bool → Thinker → Thinker
  recover_think_claim error t =
      if is_row t.think_claim_state "in_flight" && not error
      then record t { think_claim_state = some "uncertain" }
      else t

  unfoldable pub step : Bool → Event → Thinker → Thinker
  step enabled (round r) t = run_think_cycle_if_due enabled r t
  step enabled (recover error) t = recover_think_claim error t

  unfoldable pub run : Bool → List Event → Thinker → Thinker
  run enabled [] t = t
  run enabled (event ∷ events) t = run enabled events (step enabled event t)
