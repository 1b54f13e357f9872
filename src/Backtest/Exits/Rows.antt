-- ===== src/Backtest/Exits/Rows.antt =====
-- The minute rows, and the trading days after a purchase, that the exit rules read
-- (backend/repositories/backtest_center/backtest_repository.py for the two queries). The table
-- `minute_kline` is a list of rows; a query filters it and orders it by time.
use qmt_trading.Base.{
  ℕ, ◌-◌, Bool, ◌&&◌, Option, none, some, List, [], ◌∷◌, ◌++◌, map, ltb, leb, if◌then◌else◌, length,
  take, keep, get_elem?, sort_by,
}
use qmt_trading.Base.Int.{ℤ, pos}
use qmt_trading.Float.{Float, trunc, whole, not_a_number, infinite}
use qmt_trading.Text.{Text, codes, text_lt, text_le, text_eq, prefix, or_text}
use qmt_trading.Backtest.Types.{MarketBar}

pub record MinuteRow (R : Type 0) : Type 0 where
  pub symbol : Text
  pub datetime : Text
  pub period : Text
  pub open_price : R
  pub high : R
  pub low : R
  pub close : R
  pub pre_close : R
  pub volume : R
  pub amount : R
  pub suspend_flag : ℤ

-- `sorted({...})` on texts.
unfoldable pub insert_unique : Text → List Text → List Text
insert_unique d [] = d ∷ []
insert_unique d (e ∷ es) =
    if text_lt d e then d ∷ e ∷ es else if text_eq d e then e ∷ es else e ∷ insert_unique d es

unfoldable pub sorted_set : List Text → List Text
unfolding insert_unique
sorted_set [] = []
sorted_set (d ∷ ds) = insert_unique d (sorted_set ds)

abbrev pub or_else {ℓ} : {A : Type ℓ} → Option A → A → A
or_else none a = a
or_else (some a) b = a

module _ {R : Type 0} where
  -- `bar.bar_time or bar.trade_date`
  abbrev pub time_of : MarketBar R → Text
  time_of bar = or_text (or_else bar.bar_time []) bar.trade_date

  abbrev pub is_minute : MinuteRow R → Bool
  is_minute r = text_eq r.period (codes "1m")

  abbrev earlier_row : MinuteRow R → MinuteRow R → Bool
  earlier_row a b = text_lt a.datetime b.datetime

  unfoldable pub list_minute_bar_rows_between :
      List (MinuteRow R) → Text → Text → Text → List (MinuteRow R)
  unfolding sort_by
  list_minute_bar_rows_between table symbol start end = sort_by earlier_row (
      keep
        (λ (r : MinuteRow R).
          is_minute r
          && text_eq r.symbol symbol
          && text_le start r.datetime
          && text_le r.datetime end)
        table)

  unfoldable pub next_minute_bar_row :
      List (MinuteRow R) → Text → Text → Text → Option (MinuteRow R)
  unfolding sort_by
  next_minute_bar_row table symbol signal_time end_date =
      get_elem?
        (sort_by earlier_row (
          keep
            (λ (r : MinuteRow R).
              is_minute r
              && text_eq r.symbol symbol
              && text_lt signal_time r.datetime
              && text_le r.datetime (end_date ++ codes " 23:59:59"))
            table))
        0

  abbrev later_bars : List (MarketBar R) → Text → List (MarketBar R)
  later_bars bars date = keep (λ (b : MarketBar R). text_lt date b.trade_date) bars

  unfoldable pub trading_dates_after : List (MarketBar R) → Text → ℕ → List Text
  unfolding sorted_set
  trading_dates_after bars date days =
      let future = sorted_set (map (λ (b : MarketBar R). b.trade_date) (later_bars bars date)) in
      if leb days (length future) then take days future else []

  -- `days` is 1 or more where this is called.
  unfoldable pub bar_after_trading_days : List (MarketBar R) → Text → ℕ → Option (MarketBar R)
  bar_after_trading_days bars date days =
      let future = later_bars bars date in
      if ltb (length future) days then none else get_elem? future (days - 1)

module _ {R : Type 0} ⦃F : Float R⦄ where
  -- `int(float(volume))`. The column is REAL and NOT NULL; that it holds no infinite volume, on which
  -- `int` would raise, is taken for granted.
  abbrev volume_of : R → ℤ
  volume_of volume = elim (trunc volume) [ whole z ↦ z | not_a_number ↦ pos 0 | infinite ↦ pos 0 ]

  unfoldable pub minute_market_bar : MinuteRow R → Text → MarketBar R
  minute_market_bar row name = record {
    symbol = row.symbol;
    trade_date = prefix 10 row.datetime;
    open_price = row.open_price;
    high = row.high;
    low = row.low;
    close = row.close;
    volume = volume_of row.volume;
    amount = row.amount;
    pre_close = row.pre_close;
    suspend_flag = row.suspend_flag;
    name = name;
    bar_time = some row.datetime;
  }
