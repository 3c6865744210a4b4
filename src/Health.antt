-- ===== src/Health.antt =====
-- plugins/memory/cashew/health.py: the ledger of accepted work and of the tools' outcomes.
-- Its counters start at 0 and are decremented only behind a test, so they are numbers.
pub mod Reconcile
pub mod Tools
use hermes_cashew.Base.{
  ℕ, ◌+◌, ◌-◌, String, Bool, true, false, ◌&&◌, ◌||◌, Option, none, some, List, [], ◌∷◌, ltb, ◌==◌,
  if◌then◌else◌, str_eq, member,
}

pub record OutcomeLedger : Type 0 where
  pub accepted : ℕ
  pub completed : ℕ
  pub failed : ℕ
  pub partial : ℕ
  pub uncertain : ℕ
  pub dropped : ℕ
  pub rejected : ℕ
  pub pending : ℕ
  pub in_flight : ℕ
  pub query_completed : ℕ
  pub query_failed : ℕ
  pub query_empty : ℕ
  pub extract_completed : ℕ
  pub extract_failed : ℕ
  pub extract_empty : ℕ

abbrev pub new_ledger : OutcomeLedger
new_ledger = record {
  accepted = 0;
  completed = 0;
  failed = 0;
  partial = 0;
  uncertain = 0;
  dropped = 0;
  rejected = 0;
  pending = 0;
  in_flight = 0;
  query_completed = 0;
  query_failed = 0;
  query_empty = 0;
  extract_completed = 0;
  extract_failed = 0;
  extract_empty = 0;
}

-- `if n: n -= 1`
abbrev pub decrement : ℕ → ℕ
decrement n = if ltb 0 n then n - 1 else n

unfoldable pub admit : OutcomeLedger → OutcomeLedger
admit l = record l { accepted = l.accepted + 1; pending = l.pending + 1 }

unfoldable pub reject : OutcomeLedger → OutcomeLedger
reject l = record l { rejected = l.rejected + 1 }

unfoldable pub start : OutcomeLedger → OutcomeLedger
start l = record l { pending = decrement l.pending; in_flight = l.in_flight + 1 }

unfoldable pub complete : OutcomeLedger → OutcomeLedger
complete l = record l { in_flight = decrement l.in_flight; completed = l.completed + 1 }

unfoldable pub fail : Bool → Bool → OutcomeLedger → OutcomeLedger
fail partial uncertain l =
    let landed = record l { in_flight = decrement l.in_flight } in
    if partial
    then record landed { partial = landed.partial + 1 }
    else if uncertain
    then record landed { uncertain = landed.uncertain + 1 }
    else record landed { failed = landed.failed + 1 }

unfoldable pub drop_pending : OutcomeLedger → OutcomeLedger
drop_pending l = record l { pending = decrement l.pending; dropped = l.dropped + 1 }

unfoldable pub drop_in_flight : OutcomeLedger → OutcomeLedger
drop_in_flight l = record l { in_flight = decrement l.in_flight; dropped = l.dropped + 1 }

unfoldable pub reject_in_flight : OutcomeLedger → OutcomeLedger
reject_in_flight l = record l {
  in_flight = decrement l.in_flight;
  accepted = decrement l.accepted;
  rejected = l.rejected + 1;
}

-- the body of each tool's branch of `record_tool`
record_query : Bool → Bool → OutcomeLedger → OutcomeLedger
record_query success empty l =
    if success
    then record l {
      query_completed = l.query_completed + 1;
      query_empty = if empty then l.query_empty + 1 else l.query_empty;
    }
    else record l { query_failed = l.query_failed + 1 }

record_extract : Bool → Bool → OutcomeLedger → OutcomeLedger
record_extract success empty l =
    if success
    then record l {
      extract_completed = l.extract_completed + 1;
      extract_empty = if empty then l.extract_empty + 1 else l.extract_empty;
    }
    else record l { extract_failed = l.extract_failed + 1 }

unfoldable pub record_tool : String → Bool → Bool → OutcomeLedger → OutcomeLedger
unfolding record_query record_extract
record_tool tool success empty l =
    if str_eq tool "cashew_query"
    then record_query success empty l
    else if str_eq tool "cashew_extract"
    then record_extract success empty l
    else l

-- The report of the work; its last two keys are there only once work exists.
pub record WorkSnapshot : Type 0 where
  pub accepted : ℕ
  pub completed : ℕ
  pub failed : ℕ
  pub dropped : ℕ
  pub rejected : ℕ
  pub pending : ℕ
  pub in_flight : ℕ
  pub reconciled : Bool
  pub partial : Option ℕ
  pub uncertain : Option ℕ

-- the seven places where accepted work can be
abbrev pub accounted : OutcomeLedger → ℕ
accounted l = l.completed + l.failed + l.partial + l.uncertain + l.dropped + l.pending + l.in_flight

unfoldable pub work_snapshot : OutcomeLedger → WorkSnapshot
work_snapshot l =
    let has_work = ltb 0 l.accepted || (ltb 0 l.partial || ltb 0 l.uncertain) in
    record {
      accepted = l.accepted;
      completed = l.completed;
      failed = l.failed;
      dropped = l.dropped;
      rejected = l.rejected;
      pending = l.pending;
      in_flight = l.in_flight;
      reconciled = l.accepted == accounted l;
      partial = if has_work then some l.partial else none;
      uncertain = if has_work then some l.uncertain else none;
    }

pub record ToolSnapshot : Type 0 where
  pub query_completed : ℕ
  pub query_failed : ℕ
  pub query_empty : ℕ
  pub extract_completed : ℕ
  pub extract_failed : ℕ
  pub extract_empty : ℕ

unfoldable pub tool_snapshot : OutcomeLedger → ToolSnapshot
tool_snapshot l = record {
  query_completed = l.query_completed;
  query_failed = l.query_failed;
  query_empty = l.query_empty;
  extract_completed = l.extract_completed;
  extract_failed = l.extract_failed;
  extract_empty = l.extract_empty;
}
