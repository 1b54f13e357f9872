-- ===== src/Backtest/Broker/Rule.antt =====
-- The proof rule for one round of the broker's loop: what holds after a refusal, a purchase and a
-- sale holds after the round.
use qmt_trading.Base.{
  ℕ, ◌%◌, ◌≤◌, ◌≡◌, Option, none, some, List, [], ltb, arith, ◌≢◌, Option-cases, inl, inr,
  if◌then◌else◌,
}
use qmt_trading.Float.{Float}
use qmt_trading.Backtest.Types.{
  MarketBar, buy, watch, Signal, Event, Skip, Status, ok, filled, skipped, observed, unfilled,
  short_cash, no_holding, same_day, below_lot, out_of_range, suspended, limit_blocked, watch_only,
  no_bar,
}
use qmt_trading.Backtest.Ensuring.{Ensures, Ensures->>=, Ensures-unit}
use qmt_trading.Backtest.Portfolio.{position, available_position}
use qmt_trading.Dict.{get_or}
use qmt_trading.Backtest.Exits.Rows.{time_of}
use qmt_trading.Backtest.Exits.Keys.{requested_quantity}
use qmt_trading.Backtest.Broker.{
  State, World, refuse, buy_quantity, fill_buy, on_buy, fill_sell, sell_quantity, on_sell, on_bar,
  on_event, event_execution_price, event_bar,
}

-- The status of a signal without a trade.
abbrev pub NoTrade : Status → Type 0
NoTrade filled = ⊥
NoTrade _ = Unit

-- A quantity of whole lots, one at least.
abbrev pub IsLots : ℕ → Type 0
IsLots q = (100 ≤ q) × (q % 100 ≡ 0)

module _ {R : Type 0} ⦃F : Float R⦄ where
  buy_quantity-lots :
      (w : World R) (signal : Signal R) (cash price : R)
      → Ensures (λ q. q % 100 ≡ 0) (buy_quantity w.settings signal cash price)
  unfolding buy_quantity
  buy_quantity-lots w signal cash price = ground arith

  -- `Good` is what the caller knows of the bars of the symbol and of the bar that fills the event.
  module _ (w : World R) (event : Event R) (Before : State R → Type 0) (After : State R → Type 0)
      (Good : List (MarketBar R) → MarketBar R → Type 0)
      (good : (bar : MarketBar R)
        → event_bar w (get_or event.signal.symbol [] w.bars_by_symbol) event ≡ some bar
        → Good (get_or event.signal.symbol [] w.bars_by_symbol) bar)
      (refused : (status : Status) (bar : Option (MarketBar R)) (why : Skip) (s : State R)
        → NoTrade status
        → Before s
        → After (refuse event.signal status bar why s))
      (bought : (bars : List (MarketBar R)) (bar : MarketBar R) (price : R) (q : ℕ) (s : State R)
        → event.signal.action ≡ buy
        → Good bars bar
        → IsLots q
        → Before s
        → Ensures After (fill_buy w bars bar price event.signal q s))
      (sold : (bars : List (MarketBar R)) (bar : MarketBar R) (price : R) (q : ℕ) (s : State R)
        → Good bars bar
        → IsLots q
        → q ≤ available_position s.portfolio event.signal.symbol bar.trade_date
        → Before s
        → After (fill_sell w bar price event.signal q s)) where
    on_buy_rule :
        (bars : List (MarketBar R)) (bar : MarketBar R) (price : R) (s : State R)
        → event.signal.action ≡ buy
        → Good bars bar
        → Before s
        → Ensures After (on_buy w bars bar price event.signal s)
    unfolding on_buy
    on_buy_rule bars bar price s a g h =
        Ensures->>= (λ q. q % 100 ≡ 0) After _ _
          (buy_quantity-lots w event.signal s.portfolio.cash price)
          λ q lots. ground (
            arith,
            refused skipped (some bar) (short_cash event.signal.symbol) s tt h,
            bought bars bar price q s a g,
          )

    on_sell_rule :
        (bars : List (MarketBar R)) (bar : MarketBar R) (price : R) (s : State R)
        → Good bars bar
        → Before s
        → Ensures After (on_sell w bar price event.signal s)
    unfolding on_sell
    on_sell_rule bars bar price s g h =
        let symbol = event.signal.symbol in
        let holding = position s.portfolio symbol in
        let available = available_position s.portfolio symbol bar.trade_date in
        ground (
          arith,
          refused skipped (some bar) (no_holding symbol) s tt h,
          refused skipped (some bar) (same_day symbol bar.trade_date) s tt h,
          Ensures->>= (λ r. Unit {0}) After (requested_quantity event.signal.extra)
              (λ r.
                if ltb (sell_quantity holding available r) 100
                then ok (refuse event.signal skipped (some bar) (below_lot symbol) s)
                else ok (fill_sell w bar price event.signal (sell_quantity holding available r) s))
              (Ensures-unit (requested_quantity event.signal.extra))
              (λ r _. ground (
                arith,
                refused skipped (some bar) (below_lot symbol) s tt h,
                sold bars bar price (sell_quantity holding available r) s g,
              )),
        )

    on_bar_rule :
        (bars : List (MarketBar R)) (bar : MarketBar R) (s : State R)
        → event.signal.action ≢ watch
        → Good bars bar
        → Before s
        → Ensures After (on_bar w bars event bar s)
    unfolding on_bar
    on_bar_rule bars bar s a g h =
        let symbol = event.signal.symbol in
        let price = event_execution_price event bar event.signal.action w.settings in
        ground (
          arith,
          refused skipped (some bar) (out_of_range symbol (time_of bar)) s tt h,
          refused skipped (some bar) (suspended symbol bar.trade_date) s tt h,
          refused skipped (some bar) (limit_blocked symbol bar.trade_date event.signal.action) s tt
              h,
          on_sell_rule bars bar price s g h,
          on_buy_rule bars bar price s,
        )

    pub on_event_rule : (s : State R) → Before s → Ensures After (on_event w event s)
    unfolding on_event
    on_event_rule s h =
        let symbol = event.signal.symbol in
        let bars = get_or symbol [] w.bars_by_symbol in
        elim (Option-cases (event_bar w bars event)) [
          | inl e ↦ ground (
            arith,
            refused observed none (watch_only symbol event.signal.reason) s tt h,
            refused unfilled none (no_bar symbol) s tt h,
          )
          | inr (b, e) ↦ ground (
            arith,
            refused observed none (watch_only symbol event.signal.reason) s tt h,
            good b e,
            on_bar_rule bars b s,
          )
        ]
