-- ===== src/Backtest/Metrics.antt =====
-- MetricsService: the equity curve (build_equity, _close_price) and the count of open positions
-- (_open_position_count), both replayed from the trade rows.
pub mod Dates
pub mod Curve
pub mod Holding
pub mod Summary
use qmt_trading.Base.{ℕ, ◌+◌, ◌-◌, Bool, ◌&&◌, List, [], ◌∷◌, ◌++◌, map, ltb, if◌then◌else◌, keep}
use qmt_trading.Text.{Text, text_eq, text_le, prefix}
use qmt_trading.Dict.{Dict, get_or, insert}
use qmt_trading.Float.{Float, lit, zero_f, of_ℕ, add, sub, mul, div, eq, round, fmax}
use qmt_trading.Backtest.Types.{MarketBar, Settings, Side, bought, sold, Trade}
use qmt_trading.Backtest.Exits.Rows.{sorted_set}

pub record EquityRow (R : Type 0) : Type 0 where
  pub trade_date : Text
  pub equity : R
  pub cash : R
  pub market_value : R
  pub drawdown : R

-- What the loop over the dates carries.
pub record Replay (R : Type 0) : Type 0 where
  pub cash : R
  pub positions : Dict ℕ
  pub peak : R

abbrev pub moved : Side → Text → ℕ → Dict ℕ → Dict ℕ
moved bought symbol quantity positions =
    insert symbol (get_or symbol 0 positions + quantity) positions
moved sold symbol quantity positions =
    insert symbol (get_or symbol 0 positions - quantity) positions

unfoldable pub count_open : Dict ℕ → ℕ
count_open [] = 0
count_open ((symbol, quantity) ∷ positions) =
    (if ltb 0 quantity then 1 else 0) + count_open positions

module _ {R : Type 0} where
  -- The loop of `_close_price`, with the last price that it has seen.
  unfoldable pub close_from : R → Text → List (MarketBar R) → R
  close_from latest date [] = latest
  close_from latest date (b ∷ bars) =
      let rest = close_from b.close date bars in if text_le b.trade_date date then rest else latest

  unfoldable pub replayed_positions : Dict ℕ → List (Trade R) → Dict ℕ
  replayed_positions positions [] = positions
  replayed_positions positions (t ∷ trades) =
      replayed_positions (moved t.side t.symbol t.quantity positions) trades

  unfoldable pub open_position_count : List (Trade R) → ℕ
  unfolding count_open replayed_positions
  open_position_count trades = count_open (replayed_positions [] trades)

  abbrev pub dates_of : Dict (List (MarketBar R)) → List Text
  dates_of [] = []
  dates_of ((symbol, bars) ∷ rest) = map (λ (b : MarketBar R). b.trade_date) bars ++ dates_of rest

  unfoldable pub equity_dates : Settings R → Dict (List (MarketBar R)) → List Text
  unfolding sorted_set
  equity_dates settings bars_by_symbol = sorted_set (
      keep (λ d. text_le settings.start_date d && text_le d settings.end_date)
        (dates_of bars_by_symbol))

module _ {R : Type 0} ⦃F : Float R⦄ where
  unfoldable pub close_price : Text → Text → Dict (List (MarketBar R)) → R
  unfolding close_from get_or
  close_price symbol date bars_by_symbol = close_from zero_f date (get_or symbol [] bars_by_symbol)

  abbrev cash_after : Trade R → R → R
  cash_after t cash = elim t.side [
    | bought ↦ sub cash (add t.amount t.fee)
    | sold ↦ add cash (sub t.amount t.fee)
  ]

  unfoldable pub replay_trades : List (Trade R) → Replay R → Replay R
  unfolding insert get_or
  replay_trades [] r = r
  replay_trades (t ∷ trades) r = replay_trades trades (record r {
    cash = cash_after t r.cash;
    positions = moved t.side t.symbol t.quantity r.positions;
  })

  -- The market value, summed in the order in which the symbols were first traded.
  unfoldable pub value_from : R → Text → Dict (List (MarketBar R)) → Dict ℕ → R
  unfolding close_price
  value_from value date bars_by_symbol [] = value
  value_from value date bars_by_symbol ((symbol, quantity) ∷ positions) =
      value_from
        (if ltb 0 quantity
          then add value (mul (close_price symbol date bars_by_symbol) (of_ℕ quantity))
          else value)
        date bars_by_symbol positions

  abbrev of_day : Text → List (Trade R) → List (Trade R)
  of_day date trades = keep (λ (t : Trade R). text_eq (prefix 10 t.trade_time) date) trades

  abbrev drawdown_of : R → R → R
  drawdown_of equity peak =
      if eq peak zero_f then zero_f else round 4 (mul (div (sub equity peak) peak) (lit 100 0))

  unfoldable pub equity_rows :
      Dict (List (MarketBar R)) → List (Trade R) → Replay R → List Text → List (EquityRow R)
  unfolding replay_trades value_from text_eq
  equity_rows bars_by_symbol trades r [] = []
  equity_rows bars_by_symbol trades r (date ∷ dates) =
      let day = replay_trades (of_day date trades) r in
      let value = value_from zero_f date bars_by_symbol day.positions in
      let equity = add day.cash value in
      let peak = fmax day.peak equity in
      let row : EquityRow R = record {
        trade_date = date;
        equity = round 2 equity;
        cash = round 2 day.cash;
        market_value = round 2 value;
        drawdown = drawdown_of equity peak;
      } in
      row ∷ equity_rows bars_by_symbol trades (record day { peak = peak }) dates

  abbrev first_row : Settings R → EquityRow R
  first_row settings = record {
    trade_date = settings.start_date;
    equity = settings.initial_cash;
    cash = settings.initial_cash;
    market_value = zero_f;
    drawdown = zero_f;
  }

  -- One row of the start where there is no other.
  abbrev pub or_first : Settings R → List (EquityRow R) → List (EquityRow R)
  or_first settings [] = first_row settings ∷ []
  or_first settings (row ∷ rows) = row ∷ rows

  unfoldable pub build_equity :
      Settings R → Dict (List (MarketBar R)) → List (Trade R) → List (EquityRow R)
  unfolding equity_dates equity_rows
  build_equity settings bars_by_symbol trades = or_first settings (
      equity_rows bars_by_symbol trades
        (record { cash = settings.initial_cash; positions = []; peak = settings.initial_cash })
        (equity_dates settings bars_by_symbol))
