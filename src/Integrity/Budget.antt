-- ===== src/Integrity/Budget.antt =====
-- `_AuditBudget`, and the count that it bounds. Each reading of the clock is an argument.
use hermes_cashew.Base.{
  ℕ, ◌+◌, ◌*◌, ◌≤◌, ◌≡◌, refl, ◌∙◌, Bool, true, false, ◌&&◌, ◌||◌, not, ltb, leb, not-leb→lt,
  not-ltb→le, if◌then◌else◌, if_cases, arith,
}

abbrev pub max_audit_rows : ℕ
max_audit_rows = 100000

abbrev pub max_audit_bytes : ℕ
max_audit_bytes = 64 * 1024 * 1024

-- `incomplete_reasons`, as a flag for each of the three that the budget adds
pub record AuditBudget : Type 0 where
  pub deadline : ℕ
  pub rows : ℕ
  pub bytes : ℕ
  pub audit_deadline : Bool
  pub audit_row_cap : Bool
  pub audit_byte_cap : Bool

unfoldable pub incomplete : AuditBudget → Bool
incomplete b = b.audit_deadline || b.audit_row_cap || b.audit_byte_cap

unfoldable pub check : ℕ → AuditBudget → Bool × AuditBudget
check now b = if leb b.deadline now then (false, record b { audit_deadline = true }) else (true, b)

unfoldable pub is_ready : ℕ → AuditBudget → Bool × AuditBudget
is_ready now b = let c = check now b in (c.0 && not (incomplete c.1), c.1)

-- the bytes of a number that is at least 0: a negative one is refused like one that is too large
unfoldable pub reserve_bytes : ℕ → ℕ → AuditBudget → Bool × AuditBudget
reserve_bytes now byte_count b =
    let r = is_ready now b in
    if not r.0
    then (false, r.1)
    else if ltb max_audit_bytes (b.bytes + byte_count)
    then (false, record r.1 { audit_byte_cap = true })
    else (true, record r.1 { bytes = b.bytes + byte_count })

-- The row is counted only if the bytes are reserved. `later` is the second reading of the clock.
unfoldable pub consume : ℕ → ℕ → ℕ → AuditBudget → Bool × AuditBudget
consume now later byte_count b =
    let r = is_ready now b in
    let s = reserve_bytes later byte_count r.1 in
    if not r.0
    then (false, r.1)
    else if leb max_audit_rows b.rows
    then (false, record r.1 { audit_row_cap = true })
    else if not s.0
    then (false, s.1)
    else (true, record s.1 { rows = b.rows + 1 })

-- Within its caps, and refused work is never forgotten.
pub record IsBounded (b : AuditBudget) : Type 0 where
  pub rows_within : b.rows ≤ max_audit_rows
  pub bytes_within : b.bytes ≤ max_audit_bytes

-- what a method leaves: it is bounded, and incomplete exactly if the method says no
pub record Leaves (b : AuditBudget) (r : Bool × AuditBudget) : Type 0 where
  pub bounded : IsBounded r.1
  pub said : incomplete r.1 ≡ not r.0
  pub rows_same : r.1.rows ≡ b.rows

is_ready_lem :
    (now : ℕ) (b : AuditBudget)
    → IsBounded b
    → Leaves b (is_ready now b) × ((is_ready now b).1.bytes ≡ b.bytes)
unfolding is_ready check incomplete
is_ready_lem now b v = ground arith

reserve_bytes_lem : (now n : ℕ) (b : AuditBudget) → IsBounded b → Leaves b (reserve_bytes now n b)
unfolding reserve_bytes incomplete
reserve_bytes_lem now n b v =
    let (w, same) = is_ready_lem now b v in
    let r = is_ready now b in
    if_cases (Leaves b) (not r.0)
      (λ e. record { bounded = w.bounded; said = w.said ∙ e; rows_same = w.rows_same })
      (λ e.
        if_cases (Leaves b) (ltb max_audit_bytes (b.bytes + n))
          (λ f. ground (arith, w.bounded.rows_within, w.bounded.bytes_within, w.rows_same))
          (λ f. record {
            bounded = record {
              rows_within = w.bounded.rows_within;
              bytes_within = not-ltb→le _ _ f;
            };
            said = w.said ∙ e;
            rows_same = w.rows_same;
          }))

-- A row that is granted is counted, one that is not leaves the count.
abbrev Counts : AuditBudget → Bool × AuditBudget → Type 0
Counts b r =
    IsBounded r.1 × (incomplete r.1 ≡ not r.0) × (r.1.rows ≡ (if r.0 then b.rows + 1 else b.rows))

-- A budget within its caps of rows and of bytes stays within them when a row of any size is
-- consumed at any time; the audit is incomplete afterwards exactly if the row was refused, and
-- the row is counted exactly if it was granted.
pub consume_lem :
    (now later n : ℕ) (b : AuditBudget)
    → IsBounded b
    → IsBounded (consume now later n b).1
      × (incomplete (consume now later n b).1 ≡ not (consume now later n b).0)
      × ((consume now later n b).1.rows
          ≡ (if (consume now later n b).0 then b.rows + 1 else b.rows))
unfolding consume incomplete
consume_lem now later n b v =
    let (w, _) = is_ready_lem now b v in
    let r = is_ready now b in
    let u = reserve_bytes_lem later n r.1 w.bounded in
    let s = reserve_bytes later n r.1 in
    if_cases (Counts b) (not r.0) (λ e. (w.bounded, w.said ∙ e, w.rows_same))
      (λ e.
        if_cases (Counts b) (leb max_audit_rows b.rows)
          (λ f. (
            record { rows_within = w.bounded.rows_within; bytes_within = w.bounded.bytes_within },
            ground arith,
            w.rows_same,
          ))
          (λ f.
            if_cases (Counts b) (not s.0) (λ g. (u.bounded, u.said ∙ g, u.rows_same ∙ w.rows_same))
              (λ g. (
                record {
                  rows_within = omega (arith, not-leb→lt _ _ f);
                  bytes_within = u.bounded.bytes_within;
                },
                u.said ∙ g,
                refl,
              ))))
