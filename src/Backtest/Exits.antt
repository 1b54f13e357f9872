-- ===== src/Backtest/Exits.antt =====
-- The exit rules of BacktestBroker: `_auto_exit_event` and `_controlled_exit_event`. `Keys` reads the
-- signal keys that set them, `Rows` the minute bars, and `Scan` looks for the row that triggers.
pub mod Keys
pub mod Rows
pub mod Scan
pub mod Sells
pub mod Named
use qmt_trading.Base.{
  ℕ, zero, suc, ◌+◌, ◌-◌, Bool, true, false, not, ◌&&◌, ◌||◌, Option, none, some, List, [], ◌∷◌,
  ◌++◌, map, ltb, leb, ◌==◌, if◌then◌else◌, length, take, keep, last?, get_elem?, sort_by,
}
use qmt_trading.Base.Int.{ℤ, pos}
use qmt_trading.Text.{Text, codes, text_lt, text_le, text_eq, prefix, or_text, is_empty, strip}
use qmt_trading.Dict.{lookup}
use qmt_trading.Float.{Float, lit, zero_f, of_ℕ, add, sub, mul, div, lt, le, round, nonzero, format}
use qmt_trading.Value.{Value, null, bool, int, text, text_or, to_text, show_ℕ}
use qmt_trading.Backtest.Types.{
  MarketBar, Settings, minute_frequency, Action, sell, Signal, Event, ExitLog, needs_minute_bars,
  no_exit_dates, no_minute_rows, exit_arranged, no_later_bar, holding_arranged, both, Result, ok,
  ◌>>=◌, ◌>>◌,
}
use qmt_trading.Backtest.Exits.Keys.{
  get, percent_value, exit_after_trading_days, sell_after_trading_days, normalize_time_text,
}
use qmt_trading.Backtest.Exits.Rows.{
  MinuteRow, or_else, list_minute_bar_rows_between, minute_market_bar, trading_dates_after,
  bar_after_trading_days,
}
use qmt_trading.Backtest.Exits.Scan.{ExitReason, why_text, select_row}

-- A controlled exit is final; so is its log line in a backtest on minute bars.
abbrev after_controlled :
    {R : Type 0}
    → Option (Event R)
    → Option ExitLog
    → Bool
    → Result (Option (Event R) × Option ExitLog)
    → Result (Option (Event R) × Option ExitLog)
after_controlled (some event) line minute other = ok (some event, line)
after_controlled none (some line) true other = ok (none, some line)
after_controlled none (some line) false other = other
after_controlled none none minute other = other

abbrev joined : Option ExitLog → ExitLog → Option ExitLog
joined none line = some line
joined (some first) line = some (both first line)

module _ {R : Type 0} ⦃F : Float R⦄ where
  -- The bars of the exit days, from 09:30:00 on, until the fallback time on the last day.
  unfoldable pub exit_rows :
      List (MinuteRow R) → Text → Text → Text → List Text → List (MinuteRow R)
  unfolding list_minute_bar_rows_between
  exit_rows table symbol clock final [] = []
  exit_rows table symbol clock final (day ∷ days) =
      let end = if text_eq day final then clock else codes "23:59:59" in
      list_minute_bar_rows_between table symbol (day ++ codes " 09:30:00") (day ++ codes " " ++ end)
      ++ exit_rows table symbol clock final days

  -- `round(buy_price * (1 ± pct / 100), 4)`, where the rule is set.
  abbrev stop_price : R → R → Option R
  stop_price buy_price pct =
      if lt zero_f pct
      then some (round 4 (mul buy_price (sub (lit 1 0) (div pct (lit 100 0)))))
      else none

  abbrev take_price : R → R → Option R
  take_price buy_price pct =
      if lt zero_f pct
      then some (round 4 (mul buy_price (add (lit 1 0) (div pct (lit 100 0)))))
      else none

  abbrev name_key : Signal R → Option (Value R)
  name_key signal = lookup (codes "name") signal.extra

  -- The event that the chosen row makes.
  unfoldable pub controlled_event :
      MarketBar R
      → R
      → ℕ
      → Signal R
      → ℕ
      → R
      → R
      → Text
      → ℕ
      → MinuteRow R × R × ExitReason
      → Event R × ExitLog
  unfolding minute_market_bar text_or lookup
  controlled_event buy_bar buy_price quantity signal sequence stop_pct take_pct clock days choice =
      let (row, price, why) = choice in
      let exit_bar =
        minute_market_bar row (text_or (name_key signal) (or_text buy_bar.name buy_bar.symbol)) in
      let reason =
        why_text why buy_price (stop_price buy_price stop_pct) (take_price buy_price take_pct)
          stop_pct take_pct clock days in
      let auto_signal : Signal R = record {
        symbol = signal.symbol;
        action = sell;
        price = price;
        amount = some (round 2 (mul price (of_ℕ quantity)));
        reason = reason ++ codes " 原始买入原因：" ++ signal.reason;
        signal_time =
            or_text (or_else exit_bar.bar_time []) (exit_bar.trade_date ++ codes " " ++ clock);
        extra =
            (codes "name", text (text_or (name_key signal) (or_text exit_bar.name signal.symbol)))
            ∷ (codes "quantity", int (pos quantity))
            ∷ (codes "_auto_exit", bool true)
            ∷ [];
      } in
      (
        record {
          signal = auto_signal;
          bar = some exit_bar;
          sort_time = auto_signal.signal_time;
          sequence = sequence;
          execution_price = some price;
        },
        exit_arranged buy_bar.symbol auto_signal.signal_time quantity,
      )

  -- `_controlled_exit_event` once the days are known.
  unfoldable pub controlled_on_days :
      List (MinuteRow R)
      → MarketBar R
      → R
      → ℕ
      → Signal R
      → ℕ
      → R
      → R
      → Text
      → ℕ
      → List Text
      → Option (Event R) × Option ExitLog
  unfolding exit_rows select_row controlled_event
  controlled_on_days table buy_bar buy_price quantity signal sequence stop_pct take_pct clock days
        dates =
      elim (last? dates) [
        | none ↦ (none, some (no_exit_dates buy_bar.symbol buy_bar.trade_date))
        | some final ↦ elim (exit_rows table buy_bar.symbol clock final dates) [
          | [] ↦ (none, some (no_minute_rows buy_bar.symbol days))
          | row ∷ rows ↦
              let choice =
                select_row (stop_price buy_price stop_pct) (take_price buy_price take_pct) row
                  rows in
              let (event, line) =
                controlled_event buy_bar buy_price quantity signal sequence stop_pct take_pct clock
                  days choice in
              (some event, some line)
        ]
      ]

  unfoldable pub controlled_exit_event :
      List (MinuteRow R)
      → Settings R
      → List (MarketBar R)
      → MarketBar R
      → R
      → ℕ
      → Signal R
      → ℕ
      → Result (Option (Event R) × Option ExitLog)
  unfolding controlled_on_days percent_value exit_after_trading_days normalize_time_text
      trading_dates_after text_or lookup strip
  controlled_exit_event table settings bars buy_bar buy_price quantity signal sequence =
      let stop_pct = percent_value (get (codes "stop_loss_pct") null signal.extra) in
      let take_pct = percent_value (get (codes "take_profit_pct") null signal.extra) in
      let fallback = strip (text_or (lookup (codes "fallback_exit_time") signal.extra) []) in
      if le stop_pct zero_f && le take_pct zero_f && is_empty fallback
      then ok (none, none)
      else if not (text_eq settings.data_frequency minute_frequency)
      then ok (none, some needs_minute_bars)
      else do
        days ← exit_after_trading_days signal.extra
        ok (
            controlled_on_days table buy_bar buy_price quantity signal sequence stop_pct take_pct
              (normalize_time_text (or_text fallback (codes "14:50:00"))) days
              (trading_dates_after bars buy_bar.trade_date days))

  -- The holding-days exit at the open of a later daily bar.
  unfoldable pub holding_event : MarketBar R → ℕ → Signal R → ℕ → ℕ → MarketBar R → Event R
  unfolding text_or lookup show_ℕ
  holding_event buy_bar quantity signal sequence days exit_bar =
      let time = exit_bar.trade_date ++ codes " 09:30:00" in
      record {
        signal = record {
          symbol = signal.symbol;
          action = sell;
          price = exit_bar.open_price;
          amount = some (round 2 (mul exit_bar.open_price (of_ℕ quantity)));
          reason =
              codes "买入信号设置持有 " ++ show_ℕ days ++ codes " 个交易日，按次日开盘本地撮合卖出；原始原因：" ++ signal.reason;
          signal_time = time;
          extra =
              (codes "name", text (text_or (name_key signal) (or_text exit_bar.name signal.symbol)))
              ∷ (codes "quantity", int (pos quantity))
              ∷ (codes "_auto_exit", bool true)
              ∷ [];
        };
        bar = some exit_bar;
        sort_time = time;
        sequence = sequence;
        execution_price = none;
      }

  -- `none` where the signal asks for no holding exit, `some none` where the days run past the bars.
  unfoldable pub holding_on_bar :
      MarketBar R
      → ℕ
      → Signal R
      → ℕ
      → Option ExitLog
      → ℕ
      → Option (Option (MarketBar R))
      → Result (Option (Event R) × Option ExitLog)
  unfolding holding_event
  holding_on_bar buy_bar quantity signal sequence line days none = ok (none, line)
  holding_on_bar buy_bar quantity signal sequence line days (some none) =
      ok (none, joined line (no_later_bar buy_bar.symbol buy_bar.trade_date))
  holding_on_bar buy_bar quantity signal sequence line days (some (some exit_bar)) = ok (
    some (holding_event buy_bar quantity signal sequence days exit_bar),
    joined line (holding_arranged buy_bar.symbol exit_bar.trade_date quantity),
  )

  -- `_auto_exit_event` where no controlled exit was arranged.
  unfoldable pub holding_exit :
      List (MarketBar R)
      → MarketBar R
      → ℕ
      → Signal R
      → ℕ
      → Option ExitLog
      → Result (Option (Event R) × Option ExitLog)
  unfolding sell_after_trading_days bar_after_trading_days holding_on_bar
  holding_exit bars buy_bar quantity signal sequence line = do
    days ← sell_after_trading_days signal.extra
    holding_on_bar buy_bar quantity signal sequence line days
        (if days == 0 then none else some (bar_after_trading_days bars buy_bar.trade_date days))

  unfoldable pub auto_exit_event :
      List (MinuteRow R)
      → Settings R
      → List (MarketBar R)
      → MarketBar R
      → R
      → ℕ
      → Signal R
      → ℕ
      → Result (Option (Event R) × Option ExitLog)
  unfolding controlled_exit_event holding_exit
  auto_exit_event table settings bars buy_bar buy_price quantity signal sequence = do
    controlled ←
        controlled_exit_event table settings bars buy_bar buy_price quantity signal sequence
    let (event, line) = controlled
    after_controlled event line (text_eq settings.data_frequency minute_frequency)
        (holding_exit bars buy_bar quantity signal sequence line)
