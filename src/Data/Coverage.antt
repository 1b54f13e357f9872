-- ===== src/Data/Coverage.antt =====
-- backend/services/data_center/data_center_coverage.py: which trading days a stock should have rows for,
-- the row of data_coverage, and the counts that a minute sync carries along. `read_date fmt t` is
-- strptime(t, fmt).strftime("%Y-%m-%d").
pub mod Merged
pub mod Status
use qmt_trading.Base.{
  ℕ, suc, ◌+◌, Bool, true, false, not, ◌&&◌, ◌||◌, Option, none, some, List, [], ◌∷◌, map,
  if◌then◌else◌, ◌==◌, keep, any_of, ltb, leb, length,
}
use qmt_trading.Text.{Text, codes, text_eq, text_lt, text_le, strip, is_empty, one_of, prefix}
use qmt_trading.Dict.{Dict, lookup, insert}
use qmt_trading.Float.{Float, lit, zero_f, of_ℕ, mul, div, round, fmin}

abbrev no_date : List Text
no_date = codes "0" ∷ codes "00000000" ∷ codes "1970-01-01" ∷ []

unfoldable pub parse_open_date : (Text → Text → Option Text) → Option Text → Option Text
unfolding strip text_eq
parse_open_date read_date none = none
parse_open_date read_date (some open_date) =
    let text = strip open_date in
    let by_day = read_date (codes "%Y%m%d") text in
    if is_empty open_date || is_empty text || one_of text no_date
    then none
    else elim (read_date (codes "%Y-%m-%d") text) [ some d ↦ some d | none ↦ by_day ]

unfoldable pub expected_trading_days_for_symbol :
    (Text → Text → Option Text) → List Text → Option Text → List Text
unfolding parse_open_date text_lt
expected_trading_days_for_symbol read_date trading_days open_date =
    elim (parse_open_date read_date open_date) [
      | none ↦ trading_days
      | some opened ↦ keep (λ day. text_le opened day) trading_days
    ]

abbrev joined : Option (Option Text) → Option Text
joined none = none
joined (some o) = o

unfoldable pub expected_trading_days_by_symbol :
    (Text → Text → Option Text) → List Text → List Text → Dict (Option Text) → Dict (List Text)
unfolding expected_trading_days_for_symbol lookup insert
expected_trading_days_by_symbol read_date symbols trading_days open_dates = from symbols []
  where
    from : List Text → Dict (List Text) → Dict (List Text)
    from [] d = d
    from (s ∷ ss) d = from ss (
        insert s
          (expected_trading_days_for_symbol read_date trading_days (joined (lookup s open_dates)))
          d)

pub data CoverageStatus : Type 0 where
  complete partial missing failed : CoverageStatus

-- The counts that the row is built from.
pub record Counts : Type 0 where
  pub expected_trading_days : ℕ
  pub actual_trading_days : ℕ
  pub expected_rows : Option ℕ
  pub actual_rows : ℕ
  pub duplicate_rows : ℕ

pub record CoverageRow (R : Type 0) : Type 0 where
  pub data_type : Text
  pub symbol : Text
  pub period : Text
  pub start_date : Text
  pub end_date : Text
  pub counts : Counts
  pub missing_days : List Text
  pub coverage_rate : R
  pub status : CoverageStatus
  pub checked_at : Text

abbrev pub by_days : Counts → Bool
by_days c =
    if ltb 0 c.expected_trading_days
    then leb c.expected_trading_days c.actual_trading_days
    else ltb 0 c.actual_rows

-- `complete`, by the three cases of expected_rows.
abbrev pub is_complete : Counts → Bool
is_complete c = elim c.expected_rows [
  | none ↦ by_days c
  | some rows ↦ if rows == 0 then true else leb rows c.actual_rows
]

abbrev pub status_of : Counts → CoverageStatus
status_of c =
    if ltb 0 c.duplicate_rows
    then failed
    else if is_complete c
    then complete
    else if ltb 0 c.actual_rows
    then partial
    else missing

module _ {R : Type 0} ⦃F : Float R⦄ where
  -- `round(min(actual / expected, 1) * 100, 2)`
  abbrev rate : ℕ → ℕ → R
  rate actual expected =
      round 2 (mul (fmin (div (of_ℕ actual) (of_ℕ expected)) (lit 1 0)) (lit 100 0))

  abbrev rate_by_days : Counts → R
  rate_by_days c =
      if ltb 0 c.expected_trading_days
      then rate c.actual_trading_days c.expected_trading_days
      else if ltb 0 c.actual_rows
      then lit 100 0
      else zero_f

  abbrev rate_of : Counts → R
  rate_of c = elim c.expected_rows [
    | none ↦ rate_by_days c
    | some rows ↦ if rows == 0 then lit 100 0 else rate c.actual_rows rows
  ]

  unfoldable pub build_coverage_row :
      Text → Text → Text → Text → Text → Counts → List Text → Text → CoverageRow R
  build_coverage_row data_type symbol period start_date end_date counts missing_days checked_at =
      record {
        data_type = data_type;
        symbol = symbol;
        period = period;
        start_date = start_date;
        end_date = end_date;
        counts = counts;
        missing_days = missing_days;
        coverage_rate = rate_of counts;
        status = status_of counts;
        checked_at = checked_at;
      }

-- The entry of a stock: a count of rows, and a set of days.
pub record Stats : Type 0 where
  pub rows : ℕ
  pub days : List Text

-- A minute row, by the two fields that are read.
pub record Minute : Type 0 where
  pub symbol : Text
  pub datetime : Text

abbrev pub has_day : Text → List Text → Bool
has_day d days = any_of (text_eq d) days

abbrev pub all_of : (Text → Bool) → List Text → Bool
all_of p [] = true
all_of p (d ∷ ds) = if p d then all_of p ds else false

unfoldable pub has_symbol_day_coverage : List Text → Stats → Bool
unfolding text_eq
has_symbol_day_coverage expected_days stats = all_of (λ d. has_day d stats.days) expected_days

abbrev pub counted : Minute → Stats → Stats
counted r st =
    let day = prefix 10 r.datetime in
    record st { rows = st.rows + 1; days = if has_day day st.days then st.days else day ∷ st.days }

-- One pass of the loop, on the entry of the row's stock.
abbrev pub merged_into : Minute → Option Stats → Dict Stats → Dict Stats
merged_into r none coverage = coverage
merged_into r (some st) coverage =
    if ltb (length r.datetime) 10 then coverage else insert r.symbol (counted r st) coverage

unfoldable pub merge_minute_rows_into_coverage : List Minute → Dict Stats → Dict Stats
unfolding lookup insert
merge_minute_rows_into_coverage [] coverage = coverage
merge_minute_rows_into_coverage (r ∷ rows) coverage =
    merge_minute_rows_into_coverage rows (merged_into r (lookup r.symbol coverage) coverage)
