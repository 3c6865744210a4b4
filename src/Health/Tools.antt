-- ===== src/Health/Tools.antt =====
-- The tool counters: every call of a tool is counted once, and no more calls are empty than succeed.
use hermes_cashew.Base.{
  ℕ, ◌+◌, ◌≡◌, refl, Bool, List, [], ◌∷◌, arith, String, str_eq, str_eq_apart, ◌∙◌, if◌then◌else◌,
}
use hermes_cashew.Health.{OutcomeLedger, record_tool, work_snapshot}

pub record ToolCall : Type 0 where
  pub tool : String
  pub success : Bool
  pub empty : Bool

unfoldable pub record_tools : List ToolCall → OutcomeLedger → OutcomeLedger
record_tools [] l = l
record_tools (c ∷ cs) l = record_tools cs (record_tool c.tool c.success c.empty l)

-- how many of the calls name the tool
abbrev pub calls_of : String → List ToolCall → ℕ
calls_of t [] = 0
calls_of t (c ∷ cs) = (if str_eq c.tool t then 1 else 0) + calls_of t cs

record_tool-query :
    (t : String) (s e : Bool) (l : OutcomeLedger)
    → let m = record_tool t s e l in
      m.query_completed + m.query_failed
      ≡ l.query_completed + l.query_failed + (if str_eq t "cashew_query" then 1 else 0)
unfolding record_tool
record_tool-query t s e l = ground arith

record_tool-extract :
    (t : String) (s e : Bool) (l : OutcomeLedger)
    → let m = record_tool t s e l in
      m.extract_completed + m.extract_failed
      ≡ l.extract_completed + l.extract_failed + (if str_eq t "cashew_extract" then 1 else 0)
unfolding record_tool
record_tool-extract t s e l = ground (arith, str_eq_apart t "cashew_query" "cashew_extract" refl)

record_tool-work :
    (t : String) (s e : Bool) (l : OutcomeLedger)
    → work_snapshot (record_tool t s e l) ≡ work_snapshot l
unfolding record_tool work_snapshot
record_tool-work t s e l = ground arith

-- A batch of tool calls adds its calls of each of the two tools to the completed and failed calls
-- of that tool together, and leaves the report of the work as it was.
pub record_tools-counts :
    (cs : List ToolCall) (l : OutcomeLedger)
    → let m = record_tools cs l in
      (m.query_completed + m.query_failed
        ≡ l.query_completed + l.query_failed + calls_of "cashew_query" cs)
      × (m.extract_completed + m.extract_failed
          ≡ l.extract_completed + l.extract_failed + calls_of "cashew_extract" cs)
      × (work_snapshot m ≡ work_snapshot l)
unfolding record_tools
record_tools-counts [] l = (omega arith, omega arith, refl)
record_tools-counts (c ∷ cs) l =
    let rest = record_tools-counts cs (record_tool c.tool c.success c.empty l) in
    (
      omega (arith, rest.0, record_tool-query c.tool c.success c.empty l),
      omega (arith, rest.1, record_tool-extract c.tool c.success c.empty l),
      rest.2 ∙ record_tool-work c.tool c.success c.empty l,
    )
