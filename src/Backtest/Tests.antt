-- ===== src/Backtest/Tests.antt =====
-- The theorems on the backtest at a run of the broker: one stock over four days, bought on a signal
-- of the first day and sold on a signal of the second.
use qmt_trading.Base.{
  ◌⊎◌, ℕ, suc, ◌+◌, ◌*◌, ◌≤◌, ◌<◌, ◌≡◌, refl, Bool, true, false, Option, none, some, List, [], ◌∷◌,
  ◌&&◌, ◌++◌, map, All, arith, min, IsSorted, sort_by, Bool-cases, inl, inr, if◌then◌else◌,
}
use qmt_trading.Base.Int.{pos}
use qmt_trading.Text.{Text, codes, text_lt, text_le, text_eq, prefix}
use qmt_trading.Dict.{get_or, get_or-cases, lookup, Dict}
use qmt_trading.Float.Fixed.{Fixed, units, fixed_float}
use qmt_trading.Backtest.Types.{MarketBar, Settings, Signal, Action, buy, sell, Result, ok}
use qmt_trading.Backtest.Ensuring.{Ensures}
use qmt_trading.Value.{Value, text, num, text_or}
use qmt_trading.Backtest.Signals.{Item, dict, Period, listed, validate_signals}
use qmt_trading.Backtest.Signals.Accepted.{Accepted, item_of, validate_signals-Accepted}
use qmt_trading.Backtest.Metrics.{
  close_price, build_equity, equity_dates, replayed_positions, open_position_count, count_open,
}
use qmt_trading.Backtest.Metrics.Curve.{
  Quoted, close_price-Quoted, or_start, row_dates, build_equity-dates,
}
use qmt_trading.Backtest.Metrics.Dates.{contains_date, has_bar}
use qmt_trading.Backtest.Context.Dates.{IsIncreasing}
use qmt_trading.Backtest.Matching.{next_bar}
use qmt_trading.Backtest.Exits.Rows.{MinuteRow, minute_market_bar}
use qmt_trading.Backtest.Broker.Next.{
  on_minutes, is_after, IsEarliest, IsNextDay, execution_bar-IsNext,
}
use qmt_trading.Backtest.Portfolio.{
  Lot, Portfolio, new_portfolio, sellable, consume, available_position,
}
use qmt_trading.Backtest.Portfolio
use qmt_trading.Backtest.Portfolio.Lots.{shares, holdings, shares-consume, consume_in_order}
use qmt_trading.Backtest.Portfolio.Consistent.{
  IsConsistent, new_portfolio-IsConsistent, buy-IsConsistent, sell-IsConsistent,
}
use qmt_trading.Backtest.Exits.{auto_exit_event}
use qmt_trading.Backtest.Broker.{
  State, World, execute_with_audit, execution_bar, start, event_before, pending_events,
}
use qmt_trading.Backtest.Broker.Total.{execute_total}
use qmt_trading.Backtest.Broker.Sound.{IsLotTrade, execute_sound}
use qmt_trading.Backtest.Exits.Named.{BarOf}
use qmt_trading.Backtest.Broker.Replayed.{HasOwnBars, execute-replayed}
use qmt_trading.Text.Order.{text_eq→eq}

abbrev yuan : ℕ → Fixed
yuan n = units (pos (n * 10000))

abbrev day : Text → MarketBar Fixed
day date = record {
  symbol = codes "600000.SH";
  trade_date = date;
  open_price = yuan 10;
  high = yuan 12;
  low = yuan 9;
  close = yuan 11;
  volume = pos 1000;
  amount = yuan 11000;
  pre_close = yuan 10;
  suspend_flag = pos 0;
  name = codes "bank";
  bar_time = none;
}

abbrev days : List (MarketBar Fixed)
days =
    day (codes "2024-01-02")
    ∷ day (codes "2024-01-03")
    ∷ day (codes "2024-01-04")
    ∷ day (codes "2024-01-05")
    ∷ []

abbrev settings : Settings Fixed
settings = record {
  start_date = codes "2024-01-02";
  end_date = codes "2024-01-05";
  initial_cash = yuan 100000;
  single_order_amount = yuan 10000;
  data_frequency = codes "日K";
  fill_mode = codes "下一交易日开盘";
  fee_rate = units (pos 3);
  stamp_tax_rate = units (pos 10);
  slippage = yuan 0;
}

abbrev signal : Action → Text → Signal Fixed
signal action time = record {
  symbol = codes "600000.SH";
  action = action;
  price = yuan 10;
  amount = none;
  reason = codes "test";
  signal_time = time;
  extra = [];
}

abbrev signals : List (Signal Fixed)
signals = signal buy (codes "2024-01-02") ∷ signal sell (codes "2024-01-03") ∷ []

abbrev world : World Fixed
world = record {
  settings = settings;
  bars_by_symbol = (codes "600000.SH", days) ∷ [];
  minute_rows = [];
}

abbrev never : ℕ → Bool
never n = false

execute_total_example :
    (r : Result (State Fixed)) × (execute_with_audit never world signals ≡ some r)
execute_total_example = execute_total never world signals

abbrev state_of : Option (Result (State Fixed)) → State Fixed
state_of (some (ok s)) = s
state_of _ = start world signals

abbrev final : State Fixed
final = state_of (execute_with_audit never world signals)

runs : execute_with_audit never world signals ≡ some (ok final)
unfolding qmt_trading.Backtest.Exits.exit_rows qmt_trading.Backtest.Exits.controlled_event
    qmt_trading.Backtest.Exits.controlled_on_days qmt_trading.Backtest.Exits.controlled_exit_event
    qmt_trading.Backtest.Exits.holding_event qmt_trading.Backtest.Exits.holding_on_bar
    qmt_trading.Backtest.Exits.holding_exit qmt_trading.Backtest.Exits.auto_exit_event
    qmt_trading.Backtest.Exits.Keys.int_of_float qmt_trading.Backtest.Exits.Keys.percent_value
    qmt_trading.Backtest.Exits.Keys.exit_after_trading_days
    qmt_trading.Backtest.Exits.Keys.sell_after_trading_days
    qmt_trading.Backtest.Exits.Keys.requested_quantity
    qmt_trading.Backtest.Exits.Keys.normalize_time_text
    qmt_trading.Backtest.Exits.Rows.insert_unique qmt_trading.Backtest.Exits.Rows.sorted_set
    qmt_trading.Backtest.Exits.Rows.list_minute_bar_rows_between
    qmt_trading.Backtest.Exits.Rows.next_minute_bar_row
    qmt_trading.Backtest.Exits.Rows.minute_market_bar
    qmt_trading.Backtest.Exits.Rows.trading_dates_after
    qmt_trading.Backtest.Exits.Rows.bar_after_trading_days
    qmt_trading.Backtest.Broker.signal_event_time qmt_trading.Backtest.Broker.event_before
    qmt_trading.Backtest.Broker.execution_bar qmt_trading.Backtest.Broker.event_execution_price
    qmt_trading.Backtest.Broker.buy_budget qmt_trading.Backtest.Broker.buy_quantity
    qmt_trading.Backtest.Broker.refuse qmt_trading.Backtest.Broker.record_trade
    qmt_trading.Backtest.Broker.schedule qmt_trading.Backtest.Broker.fill_buy
    qmt_trading.Backtest.Broker.on_buy qmt_trading.Backtest.Broker.fill_sell
    qmt_trading.Backtest.Broker.on_sell qmt_trading.Backtest.Broker.on_bar
    qmt_trading.Backtest.Broker.event_bar qmt_trading.Backtest.Broker.on_event
    qmt_trading.Backtest.Broker.run qmt_trading.Backtest.Broker.pending_events
    qmt_trading.Backtest.Broker.start qmt_trading.Backtest.Broker.execute_with_audit
    qmt_trading.Backtest.Broker.Rows.trade_row qmt_trading.Backtest.Broker.Rows.audit_row
    qmt_trading.Backtest.Broker.Rows.audit_of_trade qmt_trading.Text.text_eq
    qmt_trading.Text.text_lt qmt_trading.Text.starts_with qmt_trading.Text.contains
    qmt_trading.Text.is_digit qmt_trading.Text.is_space qmt_trading.Text.all_digits
    qmt_trading.Text.lstrip qmt_trading.Text.strip qmt_trading.Text.upper qmt_trading.Text.lower
    qmt_trading.Dict.lookup qmt_trading.Dict.insert qmt_trading.Dict.get_or
    qmt_trading.Base.Sorting.insert_sorted qmt_trading.Base.Sorting.sort_by
    qmt_trading.Backtest.Portfolio.new_portfolio qmt_trading.Backtest.Portfolio.position
    qmt_trading.Backtest.Portfolio.sellable qmt_trading.Backtest.Portfolio.available_position
    qmt_trading.Backtest.Portfolio.buy qmt_trading.Backtest.Portfolio.consume
    qmt_trading.Backtest.Portfolio.sell qmt_trading.Backtest.Matching.next_bar
    qmt_trading.Backtest.Matching.previous_bar qmt_trading.Backtest.Matching.slipped
    qmt_trading.Backtest.Matching.executable_price qmt_trading.Backtest.Matching.is_limit_blocked
    qmt_trading.Value.show_ℕ qmt_trading.Value.show_ℤ qmt_trading.Value.to_text
    qmt_trading.Value.text_or qmt_trading.Base.Int.◌+ℤ◌
runs = refl

execute_sound_example : IsConsistent final.portfolio × All IsLotTrade final.trades
execute_sound_example = execute_sound never world signals runs

own_bars : HasOwnBars world
unfolding lookup
own_bars symbol =
    get_or-cases (All (BarOf symbol)) symbol [] world.bars_by_symbol tt (λ v e. bars_of symbol v e)
  where
    bars_of :
        (symbol : Text) (v : List (MarketBar Fixed))
        → lookup symbol world.bars_by_symbol ≡ some v
        → All (BarOf symbol) v
    bars_of symbol v e = elim (Bool-cases (text_eq (codes "600000.SH") symbol)) [
      | inr k ↦ absurd (ground (arith, rw k at e))
      | inl k ↦
          let same : days ≡ v = ground (arith, rw k at e) in
          let name : codes "600000.SH" ≡ symbol = text_eq→eq _ _ k in
          rw (← same) (name, (name, (name, (name, tt))))
    ]

execute-replayed_example :
    (final.portfolio.positions ≡ replayed_positions [] final.trades)
    × (open_position_count final.trades ≡ count_open final.portfolio.positions)
execute-replayed_example = execute-replayed never world signals own_bars runs

found_bar :
    execution_bar world days (signal buy (codes "2024-01-02")) ≡ some (day (codes "2024-01-03"))
unfolding execution_bar next_bar text_lt text_eq
found_bar = refl

dated : codes "2024-01-02" ≡ [] → ⊥
dated p = cc

execution_bar-IsNext_example :
    ((on_minutes world ≡ true)
      × (r : MinuteRow Fixed) × IsEarliest world (signal buy (codes "2024-01-02")) r
      × (day (codes "2024-01-03")
          ≡ minute_market_bar r
              (text_or (lookup (codes "name") (signal buy (codes "2024-01-02")).extra) r.symbol)))
    ⊎ (All
          (λ (q : MinuteRow Fixed).
            (on_minutes world && is_after world (signal buy (codes "2024-01-02")) q) ≡ false)
          world.minute_rows
        × IsNextDay days (signal buy (codes "2024-01-02")) (day (codes "2024-01-03")))
execution_bar-IsNext_example =
    execution_bar-IsNext world days (signal buy (codes "2024-01-02")) dated found_bar

abbrev lot : Text → ℕ → Lot Fixed
lot date quantity = record { trade_date = date; quantity = quantity; cost = yuan 1000 }

abbrev old_lots : List (Lot Fixed)
old_lots = lot (codes "2024-01-02") 200 ∷ lot (codes "2024-01-03") 300 ∷ []

abbrev new_lots : List (Lot Fixed)
new_lots = lot (codes "2024-01-03") 100 ∷ lot (codes "2024-01-04") 100 ∷ []

abbrev sale_day : Text
sale_day = codes "2024-01-04"

shares-consume_example :
    shares (consume sale_day 400 (yuan 0) old_lots).1 + min 400 (sellable sale_day old_lots) ≡ 500
shares-consume_example = shares-consume sale_day 400 (yuan 0) old_lots

enough_old : 400 ≤ sellable sale_day old_lots
unfolding sellable text_lt
enough_old = omega arith

consume_in_order_example :
    holdings (consume sale_day 400 (yuan 0) (old_lots ++ new_lots)).1
    ≡ holdings (consume sale_day 400 (yuan 0) old_lots).1 ++ holdings new_lots
consume_in_order_example =
    consume_in_order sale_day 400 (yuan 0) old_lots new_lots (omega arith, (omega arith, tt))
      enough_old

abbrev bought : Portfolio Fixed
bought =
    Portfolio.buy (codes "600000.SH") (codes "2024-01-02") (yuan 10) 300 (yuan 1)
      (new_portfolio (yuan 100000))

buy-IsConsistent_example : IsConsistent bought
buy-IsConsistent_example =
    buy-IsConsistent (codes "600000.SH") (codes "2024-01-02") (yuan 10) 300 (yuan 1)
      (new_portfolio (yuan 100000)) (omega arith) (new_portfolio-IsConsistent (yuan 100000))

may_sell : 200 ≤ available_position bought (codes "600000.SH") (codes "2024-01-03")
unfolding available_position Portfolio.buy new_portfolio qmt_trading.Dict.get_or
    qmt_trading.Dict.insert qmt_trading.Dict.lookup sellable text_lt qmt_trading.Text.text_eq
may_sell = omega arith

bought-IsConsistent : IsConsistent bought
bought-IsConsistent =
    buy-IsConsistent (codes "600000.SH") (codes "2024-01-02") (yuan 10) 300 (yuan 1)
      (new_portfolio (yuan 100000)) (omega arith) (new_portfolio-IsConsistent (yuan 100000))

sell-IsConsistent_example :
    IsConsistent
      (Portfolio.sell
        (codes "600000.SH")
        (codes "2024-01-03")
        (yuan 11)
        200
        (yuan 1)
        (yuan 2)
        bought).0
sell-IsConsistent_example =
    sell-IsConsistent (codes "600000.SH") (codes "2024-01-03") (yuan 11) 200 (yuan 1) (yuan 2)
      bought may_sell bought-IsConsistent

abbrev item : Item Fixed
item = dict (
    (codes "symbol", text (codes "600000.sh"))
    ∷ (codes "action", text (codes "buy"))
    ∷ (codes "price", num (yuan 10))
    ∷ (codes "reason", text (codes "test"))
    ∷ [])

abbrev period : Period
period = record {
  current_date = codes "2024-01-03";
  start_date = codes "2024-01-02";
  end_date = codes "2024-01-05";
}

validate_signals-Accepted_example :
    Ensures
      (λ signals. (map item_of signals ≡ item ∷ []) × All (Accepted period) signals)
      (validate_signals (λ t. some t) period (listed (item ∷ [])))
validate_signals-Accepted_example =
    validate_signals-Accepted (λ t. some t) period (listed (item ∷ []))

close_price-Quoted_example :
    (close_price (codes "600000.SH") (codes "2024-01-04") world.bars_by_symbol ≡ yuan 0)
    ⊎ Quoted
        (close_price (codes "600000.SH") (codes "2024-01-04") world.bars_by_symbol)
        (codes "2024-01-04")
        (get_or (codes "600000.SH") [] world.bars_by_symbol)
close_price-Quoted_example =
    close_price-Quoted (codes "600000.SH") (codes "2024-01-04") world.bars_by_symbol

build_equity-dates_example :
    let days = equity_dates settings world.bars_by_symbol in
    (row_dates (build_equity settings world.bars_by_symbol final.trades)
      ≡ or_start (codes "2024-01-02") days)
    × IsIncreasing days
    × (contains_date (codes "2024-01-03") days ≡ (
        text_le settings.start_date (codes "2024-01-03")
        && text_le (codes "2024-01-03") settings.end_date
        && has_bar (codes "2024-01-03") world.bars_by_symbol))
build_equity-dates_example =
    build_equity-dates settings world.bars_by_symbol final.trades (codes "2024-01-03")
