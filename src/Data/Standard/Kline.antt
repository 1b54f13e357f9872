-- ===== src/Data/Standard/Kline.antt =====
-- standardize_daily_kline and standardize_minute_kline (backend/adapters/qmt/data_standardizer.py).
use qmt_trading.Base.{Bool, not, ◌||◌, List, [], ◌∷◌, if◌then◌else◌}
use qmt_trading.Base.Int.{ℤ, is_zero_ℤ}
use qmt_trading.Text.{Text, codes, is_empty}
use qmt_trading.Dict.{Dict}
use qmt_trading.Float.{Float, zero_f, le, fmin}
use qmt_trading.Value.{Value}
use qmt_trading.Data.Fields.{
  Formats, Result, ok, ◌>>=◌, get, get_first, normalize_date, normalize_datetime, normalize_period,
  to_float, to_int, positive_or_zero,
}
use qmt_trading.Data.Symbols.{normalize_symbol}

-- A row of daily_kline by its trade_date, or of minute_kline by its datetime and period.
pub record Kline (R : Type 0) : Type 0 where
  pub symbol : Text
  pub time : Text
  pub open_price : R
  pub high : R
  pub low : R
  pub close : R
  pub pre_close : R
  pub volume : R
  pub amount : R
  pub suspended : Bool

pub record MinuteKline (R : Type 0) : Type 0 where
  pub row : Kline R
  pub period : Text

module _ {R : Type 0} ⦃F : Float R⦄ where
  -- `min(open, high, low, close)`
  abbrev pub lowest : Kline R → R
  lowest k = fmin (fmin (fmin k.open_price k.high) k.low) k.close

  abbrev pub kline : Text → ℤ → Dict (Value R) → Kline R
  kline time flag row = record {
    symbol = normalize_symbol (get (codes "symbol") row);
    time = time;
    open_price = to_float 4 (get (codes "open") row);
    high = to_float 4 (get (codes "high") row);
    low = to_float 4 (get (codes "low") row);
    close = to_float 4 (get (codes "close") row);
    pre_close =
        positive_or_zero 4
          (get_first (codes "pre_close") (codes "preClose" ∷ codes "PreClose" ∷ []) row);
    volume = to_float 2 (get (codes "volume") row);
    amount = to_float 2 (get (codes "amount") row);
    suspended = not (is_zero_ℤ flag);
  }

  -- Whether a row is passed over.
  abbrev pub is_unusable : Kline R → Bool
  is_unusable k = is_empty k.symbol || is_empty k.time || le (lowest k) zero_f

  abbrev pub flag_of : Dict (Value R) → Result ℤ
  flag_of row =
      to_int (get_first (codes "suspend_flag") (codes "suspendFlag" ∷ codes "SuspendFlag" ∷ []) row)

  abbrev pub kept : Kline R → List (Kline R) → List (Kline R)
  kept k ks = if is_unusable k then ks else k ∷ ks

  unfoldable pub standardize_daily_kline : Formats → List (Dict (Value R)) → Result (List (Kline R))
  unfolding get get_first to_int to_float positive_or_zero normalize_symbol normalize_date ◌>>=◌
  standardize_daily_kline formats [] = ok []
  standardize_daily_kline formats (row ∷ rows) = do
    let trade_date = normalize_date formats (get (codes "trade_date") row)
    flag ← flag_of row
    ks ← standardize_daily_kline formats rows
    ok (kept (kline trade_date flag row) ks)

  abbrev pub kept_minute : MinuteKline R → List (MinuteKline R) → List (MinuteKline R)
  kept_minute k ks = if is_unusable k.row then ks else k ∷ ks

  unfoldable pub standardize_minute_kline :
      Formats → List (Dict (Value R)) → Result (List (MinuteKline R))
  unfolding get get_first to_int to_float positive_or_zero normalize_symbol normalize_datetime
      normalize_period ◌>>=◌
  standardize_minute_kline formats [] = ok []
  standardize_minute_kline formats (row ∷ rows) = do
    let time = normalize_datetime formats (get (codes "datetime") row)
    let period = normalize_period (get (codes "period") row)
    flag ← flag_of row
    ks ← standardize_minute_kline formats rows
    ok (kept_minute (record { row = kline time flag row; period = period }) ks)
