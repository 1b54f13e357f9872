-- ===== src/Data/Coverage/Status.antt =====
-- The status of a coverage row.
use qmt_trading.Base.{ℕ, zero, suc, ◌≡◌, ◌≤◌, ◌<◌, ◌↔◌, true, Option, none, some, List, arith}
use qmt_trading.Text.{Text}
use qmt_trading.Float.{Float}
use qmt_trading.Data.Coverage.{
  complete, missing, failed, Counts, is_complete, status_of, build_coverage_row,
}

-- All that is expected is there: the rows, where their number is known, else the days, else any row.
abbrev pub IsCovered : Counts → Type 0
IsCovered c = elim c.expected_rows [
  | some rows ↦ rows ≤ c.actual_rows
  | none ↦ elim c.expected_trading_days [
    | zero ↦ 0 < c.actual_rows
    | suc days ↦ suc days ≤ c.actual_trading_days
  ]
]

is_complete_iff :
    (days actual : ℕ) (expected : Option ℕ) (rows duplicates : ℕ)
    → let c : Counts = record {
      expected_trading_days = days;
      actual_trading_days = actual;
      expected_rows = expected;
      actual_rows = rows;
      duplicate_rows = duplicates;
    } in
      (is_complete c ≡ true) ↔ IsCovered c
is_complete_iff days actual (some n) rows duplicates = ground arith
is_complete_iff zero actual none rows duplicates = ground arith
is_complete_iff (suc days) actual none rows duplicates = ground arith

is_complete-IsCovered : (c : Counts) → (is_complete c ≡ true) ↔ IsCovered c
is_complete-IsCovered c =
    is_complete_iff c.expected_trading_days c.actual_trading_days c.expected_rows c.actual_rows
      c.duplicate_rows

status_cases :
    (c : Counts) → (status_of c ≡ complete) ↔ ((c.duplicate_rows ≡ 0) × (is_complete c ≡ true))
status_cases c = ground arith

-- A coverage row is complete just when it has no duplicate and all that is expected is there; it is
-- failed just when it has a duplicate; and where it is missing there is no row.
pub build_coverage_row-status :
    (R : Type 0) ⦃F : Float R⦄ (data_type symbol period start_date end_date : Text) (c : Counts)
    (missing_days : List Text) (checked_at : Text)
    → let row =
        build_coverage_row {R = R} data_type symbol period start_date end_date c missing_days
          checked_at in
      ((row.status ≡ complete) ↔ ((c.duplicate_rows ≡ 0) × IsCovered c))
      × ((row.status ≡ failed) ↔ (0 < c.duplicate_rows))
      × (row.status ≡ missing → c.actual_rows ≡ 0)
unfolding build_coverage_row
build_coverage_row-status R data_type symbol period start_date end_date c missing_days checked_at =
    (
      (
        λ h.
            let (none_twice, full) = (status_cases c).0 h in
            (none_twice, (is_complete-IsCovered c).0 full),
        λ (none_twice, full). (status_cases c).1 (none_twice, (is_complete-IsCovered c).1 full),
      ),
      ground arith,
      λ h. ground arith,
    )
