-- ===== src/Data/Windows.antt =====
-- DataCenterService._minute_date_windows (backend/services/data_center/data_center_service.py): the windows
-- in which minute rows are downloaded. `stored` are the trading days of the calendar table, `business` the
-- days of `_business_days`; `days_between a b` is (b - a).days, none where strptime raises ValueError.
pub mod Cover
use qmt_trading.Base.{
  ℕ, ◌+◌, Bool, true, false, ◌||◌, Option, none, some, List, [], ◌∷◌, ◌++◌, if◌then◌else◌, ltb, leb,
  length,
}
use qmt_trading.Base.Int.{ℤ, pos, ltb_ℤ}
use qmt_trading.Text.{Text}
use qmt_trading.Data.Fields.{Result, ok, raise, value_error, ◌>>=◌}
use qmt_trading.Data.Requests.{clamp}

abbrev pub last_of : Text → List Text → Text
last_of first [] = first
last_of first (d ∷ ds) = last_of d ds

abbrev or_value_error : Option ℤ → Result ℤ
or_value_error none = raise value_error
or_value_error (some n) = ok n

-- Whether a day starts a new window, by the length of the current one and the days since its first.
unfoldable pub is_full : ℕ → List Text → ℤ → Bool
is_full window_size more span = leb window_size (length more + 1) || ltb_ℤ (pos 7) span

abbrev pub put_first : Text × Text → List (Text × Text) → Result (List (Text × Text))
put_first w ws = ok (w ∷ ws)

-- The loop, with the current window as its first day and the others.
unfoldable pub windows_from :
    (Text → Text → Option ℤ) → ℕ → List Text → Text → List Text → Result (List (Text × Text))
unfolding ◌>>=◌
windows_from days_between window_size [] first more = ok ((first, last_of first more) ∷ [])
windows_from days_between window_size (day ∷ days) first more =
    or_value_error (days_between first day) >>= λ span.
    if is_full window_size more span
    then windows_from days_between window_size days day [] >>= put_first (first, last_of first more)
    else windows_from days_between window_size days first (more ++ (day ∷ []))

abbrev pub or_days : List Text → List Text → List Text
or_days [] business = business
or_days (d ∷ ds) business = d ∷ ds

abbrev pub windows_of : (Text → Text → Option ℤ) → ℕ → List Text → Result (List (Text × Text))
windows_of days_between window_size [] = ok []
windows_of days_between window_size (d ∷ ds) = windows_from days_between window_size ds d []

unfoldable pub minute_date_windows :
    (Text → Text → Option ℤ) → List Text → List Text → ℕ → Result (List (Text × Text))
unfolding windows_from
minute_date_windows days_between stored business window_days =
    windows_of days_between (clamp 7 window_days) (or_days stored business)
