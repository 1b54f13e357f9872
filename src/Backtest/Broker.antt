-- ===== src/Backtest/Broker.antt =====
-- BacktestBroker.execute_with_audit: the loop over the pending events. `pending` is the part of the
-- source's list from `event_index` on; `event_index` counts the events taken. `cancel` is what
-- `cancel_check` answers before each event. The progress callback only observes, and is left out.
pub mod Rows
pub mod Next
pub mod Rule
pub mod Loop
pub mod Order
pub mod Sound
pub mod Audited
pub mod Replayed
pub mod Total
use qmt_trading.Base.{
  ℕ, zero, suc, ◌+◌, ◌-◌, ◌*◌, ◌/◌, Bool, true, false, not, ◌&&◌, ◌||◌, Option, none, some, List,
  [], ◌∷◌, ◌++◌, ltb, ◌==◌, if◌then◌else◌, length, sort_by, min,
}
use qmt_trading.Base.Int.{ℤ, pos, pos_part, is_zero_ℤ, ltb_ℤ}
use qmt_trading.Text.{Text, codes, text_lt, text_le, text_eq, prefix, is_empty}
use qmt_trading.Dict.{Dict, get_or, lookup}
use qmt_trading.Float.{
  Float, lit, zero_f, of_ℕ, add, sub, mul, div, lt, eq, round, fmin, trunc, whole, not_a_number,
  infinite,
}
use qmt_trading.Value.{text_or}
use qmt_trading.Backtest.Types.{
  MarketBar, Settings, minute_frequency, Action, buy, sell, watch, Signal, Event, Trade, Side,
  bought, sold, Skip, watch_only, no_bar, out_of_range, suspended, limit_blocked, short_cash,
  no_holding, same_day, below_lot, Status, observed, unfilled, skipped, filled, Audit, ExitLog, Log,
  skip_line, exit_line, Error, cancelled, zero_division, value_error, overflow, Result, ok, raise,
  ◌>>=◌, ◌>>◌,
}
use qmt_trading.Backtest.Matching.{next_bar, is_limit_blocked, executable_price, slipped}
use qmt_trading.Backtest.Portfolio.{Portfolio, new_portfolio, position, available_position}
use qmt_trading.Backtest.Portfolio
use qmt_trading.Backtest.Exits.{auto_exit_event}
use qmt_trading.Backtest.Exits.Keys.{requested_quantity}
use qmt_trading.Backtest.Exits.Rows.{
  MinuteRow, next_minute_bar_row, minute_market_bar, time_of, or_else,
}
use Rows.{trade_row, audit_row, audit_of_trade}

pub record State (R : Type 0) : Type 0 where
  pub portfolio : Portfolio R
  pub trades : List (Trade R)
  pub logs : List Log
  pub audits : List (Audit R)
  pub pending : List (Event R)
  pub next_sequence : ℕ

-- What the loop reads and does not change.
pub record World (R : Type 0) : Type 0 where
  pub settings : Settings R
  pub bars_by_symbol : Dict (List (MarketBar R))
  pub minute_rows : List (MinuteRow R)

module _ {R : Type 0} where
  -- `_signal_event_time`
  unfoldable pub signal_event_time : Signal R → Text
  signal_event_time signal =
      if is_empty signal.signal_time
      then codes "9999-12-31 23:59:59"
      else if length signal.signal_time == 10
      then signal.signal_time ++ codes " 15:00:00"
      else signal.signal_time

  -- `_event_sort_key`: by time, then by sequence number.
  unfoldable pub event_before : Event R → Event R → Bool
  event_before a b =
      text_lt a.sort_time b.sort_time
      || text_eq a.sort_time b.sort_time && ltb a.sequence b.sequence

  abbrev pub in_task_range : MarketBar R → Settings R → Bool
  in_task_range bar settings =
      text_le settings.start_date bar.trade_date && text_le bar.trade_date settings.end_date

-- `requested or available`
abbrev asked_or : ℕ → Option ℕ → ℕ
asked_or available none = available
asked_or available (some q) = if q == 0 then available else q

-- `min(holding, available, requested or available)`, cut to whole lots.
abbrev pub sell_quantity : ℕ → ℕ → Option ℕ → ℕ
sell_quantity holding available requested =
    min (min holding available) (asked_or available requested) / 100 * 100

module _ {R : Type 0} ⦃F : Float R⦄ where
  -- `_execution_bar`: on minute bars the first row after the signal, else the next daily bar.
  unfoldable pub execution_bar : World R → List (MarketBar R) → Signal R → Option (MarketBar R)
  unfolding next_bar text_or next_minute_bar_row minute_market_bar
  execution_bar w bars signal =
      let daily = next_bar bars signal.signal_time in
      let row =
        next_minute_bar_row w.minute_rows signal.symbol signal.signal_time w.settings.end_date in
      if text_eq w.settings.data_frequency minute_frequency
      then elim row [
        | none ↦ daily
        | some r ↦
            some (minute_market_bar r (text_or (lookup (codes "name") signal.extra) r.symbol))
      ]
      else daily

  -- `_event_execution_price`
  unfoldable pub event_execution_price : Event R → MarketBar R → Action → Settings R → R
  unfolding slipped executable_price
  event_execution_price event bar action settings =
      let matched = executable_price bar action settings.fill_mode settings.slippage in
      elim event.execution_price [
        | none ↦ matched
        | some price ↦ if lt zero_f price then slipped price action settings.slippage else matched
      ]

  unfoldable pub buy_budget : Settings R → Signal R → R → R
  buy_budget settings signal cash =
      let plain = fmin settings.single_order_amount cash in
      elim signal.amount [
        | none ↦ plain
        | some amount ↦
            if lt zero_f amount then fmin (fmin amount settings.single_order_amount) cash else plain
      ]

  -- `int(budget / price / 100) * 100`; a negative result counts as 0, below one lot as well.
  unfoldable pub buy_quantity : Settings R → Signal R → R → R → Result ℕ
  unfolding buy_budget
  buy_quantity settings signal cash price =
      if eq price zero_f
      then raise zero_division
      else elim (trunc (div (div (buy_budget settings signal cash) price) (lit 100 0))) [
        | whole z ↦ ok (pos_part z * 100)
        | not_a_number ↦ raise value_error
        | infinite ↦ raise overflow
      ]

  -- A signal that is not filled: a log line and an audit row.
  unfoldable pub refuse : Signal R → Status → Option (MarketBar R) → Skip → State R → State R
  unfolding audit_row
  refuse signal status bar why s = record s {
    logs = s.logs ++ skip_line why ∷ [];
    audits = s.audits ++ audit_row signal status bar (some why) ∷ [];
  }

  -- A filled signal: the trade and its audit row.
  unfoldable pub record_trade : Signal R → Trade R → Portfolio R → State R → State R
  unfolding audit_of_trade
  record_trade signal trade portfolio s = record s {
    portfolio = portfolio;
    trades = s.trades ++ trade ∷ [];
    audits = s.audits ++ audit_of_trade signal filled trade ∷ [];
  }

  -- The exit that a purchase arranges joins the pending events, which are sorted again.
  unfoldable pub schedule : Option (Event R) × Option ExitLog → State R → State R
  unfolding event_before sort_by
  schedule (event, line) s =
      let logs : List Log = elim line [ none ↦ s.logs | some l ↦ s.logs ++ exit_line l ∷ [] ] in
      elim event [
        | none ↦ record s { logs = logs }
        | some e ↦ record s {
          logs = logs;
          pending = sort_by event_before (s.pending ++ e ∷ []);
          next_sequence = s.next_sequence + 1;
        }
      ]

  unfoldable pub fill_buy :
      World R → List (MarketBar R) → MarketBar R → R → Signal R → ℕ → State R → Result (State R)
  unfolding trade_row record_trade schedule Portfolio.buy
  fill_buy w bars bar price signal quantity s =
      let fee = round 2 (mul (mul price (of_ℕ quantity)) w.settings.fee_rate) in
      let portfolio = Portfolio.buy signal.symbol bar.trade_date price quantity fee s.portfolio in
      let trade = trade_row bar bought price quantity fee zero_f signal in
      do
        exit ←
            auto_exit_event w.minute_rows w.settings bars bar price quantity signal s.next_sequence
        ok (schedule exit (record_trade signal trade portfolio s))

  unfoldable pub on_buy :
      World R → List (MarketBar R) → MarketBar R → R → Signal R → State R → Result (State R)
  unfolding buy_quantity refuse fill_buy
  on_buy w bars bar price signal s = do
    quantity ← buy_quantity w.settings signal s.portfolio.cash price
    if ltb quantity 100
        then ok (refuse signal skipped (some bar) (short_cash signal.symbol) s)
        else fill_buy w bars bar price signal quantity s

  unfoldable pub fill_sell : World R → MarketBar R → R → Signal R → ℕ → State R → State R
  unfolding trade_row record_trade Portfolio.sell
  fill_sell w bar price signal quantity s =
      let gross = mul price (of_ℕ quantity) in
      let fee = round 2 (mul gross w.settings.fee_rate) in
      let stamp_tax = round 2 (mul gross w.settings.stamp_tax_rate) in
      let (portfolio, pnl) =
        Portfolio.sell signal.symbol bar.trade_date price quantity fee stamp_tax s.portfolio in
      record_trade signal (trade_row bar sold price quantity (add fee stamp_tax) pnl signal)
        portfolio s

  unfoldable pub on_sell : World R → MarketBar R → R → Signal R → State R → Result (State R)
  unfolding refuse fill_sell requested_quantity
  on_sell w bar price signal s =
      let symbol = signal.symbol in
      let holding = position s.portfolio symbol in
      let available = available_position s.portfolio symbol bar.trade_date in
      let no = λ (why : Skip). ok (refuse signal skipped (some bar) why s) in
      if ltb holding 100
      then no (no_holding symbol)
      else if ltb available 100
      then no (same_day symbol bar.trade_date)
      else do
        requested ← requested_quantity signal.extra
        let quantity = sell_quantity holding available requested
        if ltb quantity 100
            then no (below_lot symbol)
            else ok (fill_sell w bar price signal quantity s)

  -- The guards on the bar that would fill the signal, and the fill.
  unfoldable pub on_bar :
      World R → List (MarketBar R) → Event R → MarketBar R → State R → Result (State R)
  unfolding event_execution_price is_limit_blocked refuse
  on_bar w bars event bar s =
      let signal = event.signal in
      let symbol = signal.symbol in
      let no = λ (why : Skip). ok (refuse signal skipped (some bar) why s) in
      let price = event_execution_price event bar signal.action w.settings in
      if not (in_task_range bar w.settings)
      then no (out_of_range symbol (time_of bar))
      else if not (is_zero_ℤ bar.suspend_flag) || not (ltb_ℤ (pos 0) bar.volume)
      then no (suspended symbol bar.trade_date)
      else if is_limit_blocked bars bar signal.action
      then no (limit_blocked symbol bar.trade_date signal.action)
      else elim signal.action [
        | buy ↦ on_buy w bars bar price signal s
        | sell ↦ on_sell w bar price signal s
        | watch ↦ ok s
      ]

  -- `event.get("bar") or self._execution_bar(...)`
  unfoldable pub event_bar : World R → List (MarketBar R) → Event R → Option (MarketBar R)
  unfolding execution_bar
  event_bar w bars event = elim event.bar [
    | none ↦ execution_bar w bars event.signal
    | some b ↦ some b
  ]

  -- One round of the loop on the event that it takes.
  unfoldable pub on_event : World R → Event R → State R → Result (State R)
  unfolding refuse event_bar
  on_event w event s =
      let signal = event.signal in
      let bars = get_or signal.symbol [] w.bars_by_symbol in
      let filled_on : Result (State R) = elim (event_bar w bars event) [
        | none ↦ ok (refuse signal unfilled none (no_bar signal.symbol) s)
        | some b ↦ on_bar w bars event b s
      ] in
      elim signal.action [
        | watch ↦ ok (refuse signal observed none (watch_only signal.symbol signal.reason) s)
        | _ ↦ filled_on
      ]

  -- The loop; `none` where the fuel runs out.
  unfoldable pub run : (ℕ → Bool) → World R → ℕ → ℕ → State R → Option (Result (State R))
  run cancel w zero event_index s = none
  run cancel w (suc fuel) event_index s = elim s.pending [
    | [] ↦ some (ok s)
    | event ∷ rest ↦
        if cancel event_index
        then some (raise cancelled)
        else elim (on_event w event (record s { pending = rest })) [
          | raise e ↦ some (raise e)
          | ok s' ↦ run cancel w fuel (event_index + 1) s'
        ]
  ]

  abbrev pending_event : Signal R → ℕ → Event R
  pending_event signal index = record {
    signal = signal;
    bar = none;
    sort_time = signal_event_time signal;
    sequence = index;
    execution_price = none;
  }

  unfoldable pub pending_events : ℕ → List (Signal R) → List (Event R)
  unfolding signal_event_time
  pending_events index [] = []
  pending_events index (signal ∷ signals) =
      pending_event signal index ∷ pending_events (index + 1) signals

  unfoldable pub start : World R → List (Signal R) → State R
  unfolding pending_events event_before sort_by
  start w signals = record {
    portfolio = new_portfolio w.settings.initial_cash;
    trades = [];
    logs = [];
    audits = [];
    pending = sort_by event_before (pending_events 0 signals);
    next_sequence = length signals;
  }

  -- Each signal is taken once, and so is the one exit that it may arrange.
  abbrev pub enough : List (Signal R) → ℕ
  enough signals = suc (2 * length signals)

  unfoldable pub execute_with_audit :
      (ℕ → Bool) → World R → List (Signal R) → Option (Result (State R))
  unfolding run start
  execute_with_audit cancel w signals = run cancel w (enough signals) 0 (start w signals)
