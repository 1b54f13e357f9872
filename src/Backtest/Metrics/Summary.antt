-- ===== src/Backtest/Metrics/Summary.antt =====
-- MetricsService.metrics (backend/services/backtest_center/backtest_engine.py): the numbers of the report.
use qmt_trading.Base.{
  ℕ, Bool, true, false, not, Option, none, some, List, [], ◌∷◌, map, if◌then◌else◌, keep, length,
  last?,
}
use qmt_trading.Base.Int.{ℤ}
use qmt_trading.Text.{Text}
use qmt_trading.Float.{Float, lit, zero_f, of_ℕ, add, sub, mul, div, pow, lt, eq, round, fmin}
use qmt_trading.Backtest.Types.{
  Settings, Side, bought, sold, Trade, Result, ok, raise, zero_division, ◌>>=◌,
}
use qmt_trading.Backtest.Metrics.{EquityRow, open_position_count}
use qmt_trading.Backtest.Metrics.Holding.{average_holding_days}

pub record Metrics (R : Type 0) : Type 0 where
  pub total_return : R
  pub annual_return : R
  pub max_drawdown : R
  pub win_rate : R
  pub trade_count : ℕ
  pub buy_count : ℕ
  pub sell_count : ℕ
  pub profit_loss_ratio : R
  pub average_days : R
  pub ending_cash : R
  pub open_positions : ℕ
  pub open_market_value : R
  pub total_fee : R
  pub realized_pnl : R
  pub final_cash : R

abbrev is_bought : Side → Bool
is_bought bought = true
is_bought sold = false

module _ {R : Type 0} ⦃F : Float R⦄ where
  abbrev last_row : Settings R → Option (EquityRow R) → EquityRow R
  last_row settings (some row) = row
  last_row settings none = record {
    trade_date = settings.start_date;
    equity = settings.initial_cash;
    cash = settings.initial_cash;
    market_value = zero_f;
    drawdown = zero_f;
  }

  -- `sum(...)`
  abbrev total_from : R → List R → R
  total_from acc [] = acc
  total_from acc (x ∷ xs) = total_from (add acc x) xs

  abbrev total : List R → R
  total xs = total_from zero_f xs

  abbrev least_from : R → List R → R
  least_from acc [] = acc
  least_from acc (x ∷ xs) = least_from (fmin acc x) xs

  -- `min(..., default=0)`
  abbrev least : List R → R
  least [] = zero_f
  least (x ∷ xs) = least_from x xs

  abbrev absolute : R → R
  absolute x = if lt x zero_f then sub zero_f x else x

  abbrev or_trades : List (Trade R) → List (Trade R) → List (Trade R)
  or_trades [] trades = trades
  or_trades (t ∷ ts) trades = t ∷ ts

  abbrev win_rate_of : ℕ → List (Trade R) → R
  win_rate_of wins [] = zero_f
  win_rate_of wins (t ∷ ts) = mul (div (of_ℕ wins) (of_ℕ (length (t ∷ ts)))) (lit 100 0)

  -- 252 trading days a year; the days are the rows, one at least.
  abbrev annual_of : R → R → List (EquityRow R) → R
  annual_of final initial rows =
      let days : ℕ = elim rows [ [] ↦ 1 | row ∷ rest ↦ length (row ∷ rest) ] in
      if lt zero_f final
      then mul (sub (pow (div final initial) (div (lit 252 0) (of_ℕ days))) (lit 1 0)) (lit 100 0)
      else sub zero_f (lit 100 0)

  abbrev ratio : R → R → R
  ratio profit loss = if eq loss zero_f then zero_f else div profit loss

  abbrev pnls : List (Trade R) → List R
  pnls trades = map (λ (t : Trade R). t.pnl) trades

  abbrev numbers : Settings R → List (EquityRow R) → List (Trade R) → R → Metrics R
  numbers settings rows trades average_days =
      let row = last_row settings (last? rows) in
      let realized = keep (λ (t : Trade R). not (is_bought t.side)) trades in
      let base = or_trades realized trades in
      let profitable = keep (λ (t : Trade R). lt zero_f t.pnl) base in
      let losing = keep (λ (t : Trade R). lt t.pnl zero_f) realized in
      record {
        total_return =
            round 4 (mul (sub (div row.equity settings.initial_cash) (lit 1 0)) (lit 100 0));
        annual_return = round 4 (annual_of row.equity settings.initial_cash rows);
        max_drawdown = round 4 (least (map (λ (r : EquityRow R). r.drawdown) rows));
        win_rate = round 4 (win_rate_of (length profitable) base);
        trade_count = length trades;
        buy_count = length (keep (λ (t : Trade R). is_bought t.side) trades);
        sell_count = length realized;
        profit_loss_ratio =
            round 4 (ratio (total (pnls profitable)) (absolute (total (pnls losing))));
        average_days = average_days;
        ending_cash = round 2 row.cash;
        open_positions = open_position_count trades;
        open_market_value = round 2 row.market_value;
        total_fee = round 2 (total (map (λ (t : Trade R). t.fee) trades));
        realized_pnl = round 2 (total (pnls realized));
        final_cash = round 2 row.equity;
      }

  unfoldable pub metrics :
      (Text → Text → Option ℤ)
      → Settings R
      → List (EquityRow R)
      → List (Trade R)
      → Result (Metrics R)
  unfolding average_holding_days open_position_count
  metrics days_between settings rows trades =
      if eq settings.initial_cash zero_f
      then raise zero_division
      else average_holding_days days_between trades (map (λ (r : EquityRow R). r.trade_date) rows)
        >>= λ days. ok (numbers settings rows trades days)
