-- ===== src/Backtest/Context.antt =====
-- BacktestStrategyContext (backend/services/backtest_center/backtest_engine.py): what a strategy can read
-- on a day of the backtest, with the queries of
-- backend/repositories/data_center/data_center_repository.py on minute_kline that it makes. A method
-- that logs gives the context after it, too.
pub mod Dates
pub mod Visible
pub mod Minutes
pub mod Triggers
pub mod Scanned
mod Tests
use qmt_trading.Base.{
  ℕ, ◌-◌, Bool, true, false, not, ◌&&◌, ◌||◌, Option, none, some, List, [], ◌∷◌, ◌++◌, map, ltb,
  if◌then◌else◌, length, ◌==◌, take, keep, last?, sort_by, any_of,
}
use qmt_trading.Text.{Text, codes, text_lt, text_le, text_eq, prefix, is_empty, or_text, contains}
use qmt_trading.Dict.{Dict, get_or}
use qmt_trading.Float.{Float, zero_f}
use qmt_trading.Backtest.Types.{MarketBar, minute_frequency}
use qmt_trading.Backtest.Exits.Rows.{MinuteRow, sorted_set, or_else}

pub record Context (R : Type 0) : Type 0 where
  pub bars_by_symbol : Dict (List (MarketBar R))
  pub current_date : Text
  pub data_frequency : Text
  pub minute_mode : Text
  pub logs : List Text

pub record Stock : Type 0 where
  pub symbol : Text
  pub name : Text

abbrev pub no_day : Text
no_day = codes "1900-01-01"

-- `min(a, b)`
abbrev pub text_min : Text → Text → Text
text_min a b = if text_lt b a then b else a

abbrev pub or_given : Option Text → Text → Text
or_given none t = t
or_given (some s) t = or_text s t

abbrev pub clamped : Text → Text → Text
clamped candidate bound = if text_le candidate bound then candidate else bound

-- `fallback` is "00:00:00" or "23:59:59".
abbrev pub clamp_given : Text → Text → Text → Text
clamp_given current_date fallback value =
    let dated = if length value == 10 then value ++ codes " " ++ fallback else value in
    if text_eq (prefix 10 dated) current_date then dated else current_date ++ codes " " ++ fallback

abbrev fallback_of : Bool → Text
fallback_of true = codes "00:00:00"
fallback_of false = codes "23:59:59"

abbrev pub from_start : Option Text → Text → Bool
from_start none date = true
from_start (some start) date = text_le start date

abbrev passed_over : Option Text → Text → Text → Bool
passed_over none symbol name = false
passed_over (some keyword) symbol name =
    not (is_empty keyword) && not (contains keyword symbol) && not (contains keyword name)

abbrev safe_limit : ℕ → ℕ
safe_limit limit = if ltb limit 1 then 1 else if ltb 5000 limit then 5000 else limit

module _ {R : Type 0} where
  abbrev pub all_dates : Dict (List (MarketBar R)) → List Text
  all_dates [] = []
  all_dates ((symbol, bars) ∷ rest) = map (λ (b : MarketBar R). b.trade_date) bars ++ all_dates rest

  unfoldable pub log : Text → Context R → Context R
  log message c = record c { logs = c.logs ++ (message ∷ []) }

  abbrev no_day_line : Context R → Text
  no_day_line c = codes "市值筛选风险：" ++ c.current_date ++ codes " 前缺少可见日K，无法用前一交易日市值筛选；本日股票池可能不完整。"

  abbrev pub last_or_none : Context R → Option Text → Text × Context R
  last_or_none c (some date) = (date, c)
  last_or_none c none = (no_day, log (no_day_line c) c)

  -- Whether the backtest runs on minutes.
  abbrev pub end_by : Bool → Context R → Text × Context R
  end_by false c = (c.current_date, c)
  end_by true c =
      last_or_none c
        (last? (sorted_set (keep (λ d. text_lt d c.current_date) (all_dates c.bars_by_symbol))))

  unfoldable pub visible_daily_end_date : Context R → Text × Context R
  unfolding sorted_set text_lt text_eq log
  visible_daily_end_date c = end_by (text_eq c.data_frequency minute_frequency) c

  -- The bars of the symbol from the start to the cutoff.
  abbrev pub bars_between : Text → Option Text → Text → Context R → List (MarketBar R)
  bars_between symbol start_date cutoff c =
      keep (λ (b : MarketBar R). from_start start_date b.trade_date && text_le b.trade_date cutoff)
        (get_or symbol [] c.bars_by_symbol)

  unfoldable pub get_daily_bars :
      Text → Option Text → Option Text → Context R → List (MarketBar R) × Context R
  unfolding visible_daily_end_date get_or text_lt
  get_daily_bars symbol start_date end_date c =
      let (visible_end, c') = visible_daily_end_date c in
      (bars_between symbol start_date (text_min (or_given end_date visible_end) visible_end) c, c')

  unfoldable pub clamp_datetime : Context R → Option Text → Bool → Text
  unfolding text_eq
  clamp_datetime c none start_of_day = c.current_date ++ codes " " ++ fallback_of start_of_day
  clamp_datetime c (some value) start_of_day =
      if is_empty value
      then c.current_date ++ codes " " ++ fallback_of start_of_day
      else clamp_given c.current_date (fallback_of start_of_day) value

  unfoldable pub list_minute_kline_rows :
      List (MinuteRow R) → Text → Text → Text → Text → ℕ → List (MinuteRow R)
  unfolding sort_by text_lt text_eq
  list_minute_kline_rows table symbol start_time end_time period limit = take (safe_limit limit) (
      sort_by (λ (a : MinuteRow R) (b : MinuteRow R). text_lt a.datetime b.datetime)
        (keep
          (λ (r : MinuteRow R).
            text_eq r.period period
            && text_eq r.symbol symbol
            && text_le start_time r.datetime
            && text_le r.datetime end_time)
          table))

  unfoldable pub get_minute_bars :
      List (MinuteRow R) → Text → Option Text → Option Text → Context R → List (MinuteRow R)
  unfolding clamp_datetime list_minute_kline_rows text_eq
  get_minute_bars table symbol start_time end_time c =
      let start = clamp_datetime c start_time true in
      let end = clamp_datetime c end_time false in
      if text_eq (prefix 10 start) c.current_date && text_eq (prefix 10 end) c.current_date
      then list_minute_kline_rows table symbol start end (codes "1m") 2000
      else []

  abbrev first_name : Text → List (MarketBar R) → Text
  first_name symbol [] = symbol
  first_name symbol (b ∷ bars) = b.name

  abbrev stocks_of : Option Text → Dict (List (MarketBar R)) → List Stock
  stocks_of keyword [] = []
  stocks_of keyword ((symbol, bars) ∷ rest) =
      let name = first_name symbol bars in
      let others = stocks_of keyword rest in
      if passed_over keyword symbol name
      then others
      else record { symbol = symbol; name = or_text name symbol } ∷ others

  unfoldable pub get_stock_list : Option Text → Context R → List Stock
  unfolding contains
  get_stock_list keyword c = stocks_of keyword c.bars_by_symbol

  unfoldable pub clamp_start_date : Context R → Option Text → Text
  unfolding text_lt
  clamp_start_date c value = clamped (prefix 10 (or_given value c.current_date)) c.current_date

  unfoldable pub clamp_end_date : Context R → Option Text → Text × Context R
  unfolding visible_daily_end_date text_lt
  clamp_end_date c value =
      let (visible_end, c') = visible_daily_end_date c in
      (clamped (prefix 10 (or_given value c.current_date)) visible_end, c')

  unfoldable pub get_trading_calendar : Text → Text → Context R → List Text
  unfolding sorted_set text_lt
  get_trading_calendar start_date end_date c =
      keep (λ d. text_le start_date d && text_le d end_date)
        (sorted_set (all_dates c.bars_by_symbol))

module _ {R : Type 0} ⦃F : Float R⦄ where
  abbrev close_of_last : Option (MarketBar R) → R
  close_of_last none = zero_f
  close_of_last (some b) = b.close

  unfoldable pub get_latest_price : Text → Context R → R × Context R
  unfolding get_daily_bars
  get_latest_price symbol c =
      let (bars, c') = get_daily_bars symbol none none c in (close_of_last (last? bars), c')
