-- ===== src/Locking/Scan.antt =====
-- `_bounded_rows`: a read in batches, under a budget of its own or a fixed cap.
use native.Mathlib.Nat.{add-zero}
use hermes_cashew.Base.{
  ℕ, zero, suc, ◌+◌, ◌≤◌, ◌<◌, ◌≡◌, refl, Bool, true, false, List, [], ◌∷◌, ◌++◌, length,
  length-append, length-take, length-drop, take, drop, take-append-drop, ltb, if◌then◌else◌, arith,
  leb, Bool-cases, inl, inr, ltb→lt, le→leb, not-ltb→le, ◌∙◌, sym, ap, append_assoc, append-nil,
}

abbrev pub row_cap : ℕ
row_cap = 100000

abbrev pub batch_size : ℕ
batch_size = 256

-- `some rows`, or `none` for the raise past the cap; out of fuel is told apart.
pub data Scan {ℓ} (Row : Type ℓ) : Type ℓ where
  rows : List Row → Scan Row
  too_many : Scan Row
  out_of_fuel : Scan Row

-- A cursor is the list of the rows that it has left; `fetchmany` takes the first 256 of them.
module _ {ℓ κ} {Row : Type ℓ} {Budget : Type κ} (consume : Budget → Bool × Budget) where
  -- The inner loop over one batch: the rows read, whether the budget ran out, and what is left of it.
  unfoldable pub read_batch : Budget → List Row → List Row × Bool × Budget
  read_batch b [] = ([], false, b)
  read_batch b (r ∷ rs) =
      let spent = (consume b).1 in
      let rest = read_batch spent rs in
      if (consume b).0 then (r ∷ rest.0, rest.1, rest.2) else ([], true, spent)

  -- with a budget
  unfoldable pub budgeted_rows : ℕ → Budget → List Row → List Row → Scan Row × Budget
  budgeted_rows zero b acc cursor = (out_of_fuel, b)
  budgeted_rows (suc fuel) b acc [] = (rows acc, b)
  budgeted_rows (suc fuel) b acc (r ∷ rs) =
      let batch = read_batch b (take batch_size (r ∷ rs)) in
      let next = budgeted_rows fuel batch.2 (acc ++ batch.0) (drop batch_size (r ∷ rs)) in
      if batch.1 then (rows (acc ++ batch.0), batch.2) else next

-- without one
module _ {ℓ} {Row : Type ℓ} where
  unfoldable pub capped_rows : ℕ → List Row → List Row → Scan Row
  capped_rows zero acc cursor = out_of_fuel
  capped_rows (suc fuel) acc [] = rows acc
  capped_rows (suc fuel) acc (r ∷ rs) =
      let read = acc ++ take batch_size (r ∷ rs) in
      let next = capped_rows fuel read (drop batch_size (r ∷ rs)) in
      if ltb row_cap (length read) then too_many else next

  abbrev pub within : ℕ → List Row → Scan Row
  within n all = if leb n row_cap then rows all else too_many

  within-over : (n : ℕ) (all : List Row) → row_cap < n → within n all ≡ too_many
  within-over n all h = ground arith

  capped_rows-step :
      (fuel : ℕ) (acc : List Row) (r : Row) (rs : List Row)
      → let read = acc ++ take batch_size (r ∷ rs) in
        capped_rows (suc fuel) acc (r ∷ rs) ≡ (
          if ltb row_cap (length read)
          then too_many
          else capped_rows fuel read (drop batch_size (r ∷ rs)))
  unfolding capped_rows
  capped_rows-step fuel acc r rs = refl

  -- the rows of a batch and of the cursor behind it
  read-drop :
      (acc all : List Row) → (acc ++ take batch_size all) ++ drop batch_size all ≡ acc ++ all
  read-drop acc all = append_assoc acc _ _ ∙ ap (◌++◌ acc) (take-append-drop batch_size all)

  length-read-drop :
      (acc all : List Row)
      → length (acc ++ take batch_size all) + length (drop batch_size all) ≡ length acc + length all
  length-read-drop acc all = omega (
    arith,
    length-append acc (take batch_size all),
    length-take batch_size all,
    length-drop batch_size all,
  )

  length-drop-lt :
      (r : Row) (rs : List Row) (fuel : ℕ)
      → length (r ∷ rs) < suc fuel
      → length (drop batch_size (r ∷ rs)) < fuel
  length-drop-lt r rs fuel h = omega (arith, length-drop batch_size (r ∷ rs))

  capped_rows-nil : (fuel : ℕ) (acc : List Row) → capped_rows (suc fuel) acc [] ≡ rows acc
  unfolding capped_rows
  capped_rows-nil fuel acc = refl

  -- With at most 100000 rows read so far, and fuel for a batch for each remaining row and one
  -- more, the scan without a budget returns all the rows in order if they are at most 100000
  -- together, and raises otherwise.
  pub capped_rows_lem :
      (fuel : ℕ) (acc cursor : List Row)
      → length cursor < fuel
      → length acc ≤ row_cap
      → capped_rows fuel acc cursor ≡ within (length acc + length cursor) (acc ++ cursor)
  capped_rows_lem zero acc cursor h k = absurd (omega arith)
  capped_rows_lem (suc fuel) acc [] h k =
      rw (capped_rows-nil fuel acc, append-nil, add-zero, le→leb (length acc) row_cap k)
  capped_rows_lem (suc fuel) acc (r ∷ rs) h k =
      let read = acc ++ take batch_size (r ∷ rs) in
      let n = length-read-drop acc (r ∷ rs) in
      rw (capped_rows-step fuel acc r rs) (elim (Bool-cases (ltb row_cap (length read))) [
        | inl over ↦ rw over (
            sym (
              within-over (length acc + length (r ∷ rs)) (acc ++ r ∷ rs)
                (omega (arith, n, ltb→lt row_cap (length read) over))))
        | inr under ↦ rw under (
            capped_rows_lem fuel read (drop batch_size (r ∷ rs)) (length-drop-lt r rs fuel h)
              (not-ltb→le row_cap (length read) under)
            ∙ cc (n, read-drop acc (r ∷ rs)))
      ])

module _ {ℓ κ} {Row : Type ℓ} {Budget : Type κ} (consume : Budget → Bool × Budget) where
  -- Where the first part of the rows leaves some budget, the reading goes on with the second.
  abbrev and_then :
      List Row × Bool × Budget → (Budget → List Row × Bool × Budget) → List Row × Bool × Budget
  and_then first next =
      let second = next first.2 in
      if first.1 then first else (first.0 ++ second.0, second.1, second.2)

  read_batch-append :
      (b : Budget) (xs ys : List Row)
      → read_batch consume b (xs ++ ys)
        ≡ and_then (read_batch consume b xs) (λ c. read_batch consume c ys)
  unfolding read_batch
  read_batch-append b [] ys = refl
  read_batch-append b (x ∷ xs) ys = ground (arith, read_batch-append (consume b).1 xs ys)

  budgeted_rows-step :
      (fuel : ℕ) (b : Budget) (acc : List Row) (r : Row) (rs : List Row)
      → let batch = read_batch consume b (take batch_size (r ∷ rs)) in
        budgeted_rows consume (suc fuel) b acc (r ∷ rs) ≡ (
          if batch.1
          then (rows (acc ++ batch.0), batch.2)
          else budgeted_rows consume fuel batch.2 (acc ++ batch.0) (drop batch_size (r ∷ rs)))
  unfolding budgeted_rows
  budgeted_rows-step fuel b acc r rs = refl

  budgeted_rows-nil :
      (fuel : ℕ) (b : Budget) (acc : List Row)
      → budgeted_rows consume (suc fuel) b acc [] ≡ (rows acc, b)
  unfolding budgeted_rows
  budgeted_rows-nil fuel b acc = refl

  read_batch-split :
      (b : Budget) (all : List Row)
      → read_batch consume b all
        ≡ and_then
            (read_batch consume b (take batch_size all))
            (λ c. read_batch consume c (drop batch_size all))
  read_batch-split b all =
      ap (read_batch consume b) (sym (take-append-drop batch_size all))
      ∙ read_batch-append b (take batch_size all) (drop batch_size all)

  -- With fuel for one batch for each row and one more, the scan under a budget adds to its rows
  -- those that one pass over all the remaining rows reads, and leaves the same budget.
  pub budgeted_rows_lem :
      (fuel : ℕ) (b : Budget) (acc cursor : List Row)
      → length cursor < fuel
      → let pass = read_batch consume b cursor in
        budgeted_rows consume fuel b acc cursor ≡ (rows (acc ++ pass.0), pass.2)
  budgeted_rows_lem zero b acc cursor h = absurd (omega arith)
  budgeted_rows_lem (suc fuel) b acc [] h =
      unfold read_batch in rw (budgeted_rows-nil fuel b acc, append-nil)
  budgeted_rows_lem (suc fuel) b acc (r ∷ rs) h =
      let batch = read_batch consume b (take batch_size (r ∷ rs)) in
      let behind = drop batch_size (r ∷ rs) in
      rw (budgeted_rows-step fuel b acc r rs, read_batch-split b (r ∷ rs))
        (elim (Bool-cases batch.1) [
          | inl stopped ↦ rw stopped
          | inr more ↦ rw more (
              budgeted_rows_lem fuel batch.2 (acc ++ batch.0) behind (length-drop-lt r rs fuel h)
              ∙ ap (λ l. (rows l, (read_batch consume batch.2 behind).2))
                  (append_assoc acc batch.0 _))
        ])
