-- ===== src/Backtest/Exits/Sells.antt =====
-- The action of the exits that the broker arranges for itself.
use qmt_trading.Base.{ℕ, ◌≡◌, Bool, true, false, Option, none, some, [], arith, List, inl, inr}
use qmt_trading.Text.{Text, codes, strip, or_text}
use qmt_trading.Dict.{lookup}
use qmt_trading.Value.{null, text_or}
use qmt_trading.Float.{Float}
use qmt_trading.Backtest.Types.{MarketBar, Settings, sell, Signal, Event, ExitLog, Result}
use qmt_trading.Backtest.Exits.Rows.{MinuteRow, trading_dates_after}
use qmt_trading.Backtest.Exits.{
  after_controlled, controlled_event, controlled_on_days, controlled_exit_event, holding_exit,
  holding_on_bar, auto_exit_event, holding_event,
}
use qmt_trading.Backtest.Exits.Keys.{
  get, percent_value, normalize_time_text, exit_after_trading_days,
}
use qmt_trading.Backtest.Ensuring.{Ensures, Ensures->>=, Result-cases}

module _ {R : Type 0} where
  abbrev pub IsSale : Option (Event R) × Option ExitLog → Type 0
  IsSale (none, line) = Unit
  IsSale (some e, line) = (e.signal.action ≡ sell)

  after_controlled-IsSale :
      (event : Option (Event R)) (line : Option ExitLog) (minute : Bool)
      (other : Result (Option (Event R) × Option ExitLog))
      → IsSale (event, line)
      → Ensures IsSale other
      → Ensures IsSale (after_controlled event line minute other)
  after_controlled-IsSale (some e) line minute other h k = h
  after_controlled-IsSale none (some l) true other h k = tt
  after_controlled-IsSale none (some l) false other h k = k
  after_controlled-IsSale none none minute other h k = k

module _ {R : Type 0} ⦃F : Float R⦄ where
  controlled_on_days-IsSale :
      (table : List (MinuteRow R)) (buy_bar : MarketBar R) (buy_price : R) (quantity : ℕ)
      (signal : Signal R) (sequence : ℕ) (stop_pct take_pct : R) (clock : Text) (days : ℕ)
      (dates : List Text)
      → IsSale (
          controlled_on_days table buy_bar buy_price quantity signal sequence stop_pct take_pct
            clock days dates)
  unfolding controlled_on_days controlled_event
  controlled_on_days-IsSale table buy_bar buy_price quantity signal sequence stop_pct take_pct clock
        days dates =
      ground arith

  controlled_exit_event-IsSale :
      (table : List (MinuteRow R)) (settings : Settings R) (bars : List (MarketBar R))
      (buy_bar : MarketBar R) (buy_price : R) (quantity : ℕ) (signal : Signal R) (sequence : ℕ)
      → Ensures IsSale
          (controlled_exit_event table settings bars buy_bar buy_price quantity signal sequence)
  unfolding controlled_exit_event
  controlled_exit_event-IsSale table settings bars buy_bar buy_price quantity signal sequence =
      elim (Result-cases (exit_after_trading_days signal.extra)) [
        | inl (days, e) ↦ ground (
          arith,
          controlled_on_days-IsSale table buy_bar buy_price quantity signal sequence
              (percent_value (get (codes "stop_loss_pct") null signal.extra))
              (percent_value (get (codes "take_profit_pct") null signal.extra))
              (normalize_time_text (
                or_text (strip (text_or (lookup (codes "fallback_exit_time") signal.extra) []))
                  (codes "14:50:00")))
              days (trading_dates_after bars buy_bar.trade_date days),
        )
        | inr (x, e) ↦ ground arith
      ]

  holding_exit-IsSale :
      (bars : List (MarketBar R)) (buy_bar : MarketBar R) (quantity : ℕ) (signal : Signal R)
      (sequence : ℕ) (line : Option ExitLog)
      → Ensures IsSale (holding_exit bars buy_bar quantity signal sequence line)
  unfolding holding_exit holding_on_bar holding_event
  holding_exit-IsSale bars buy_bar quantity signal sequence line = ground arith

  -- Each exit that the broker arranges for a purchase is a sale: where `_auto_exit_event` returns an
  -- event, the action of its signal is sell.
  pub auto_exit_event-IsSale :
      (table : List (MinuteRow R)) (settings : Settings R) (bars : List (MarketBar R))
      (buy_bar : MarketBar R) (buy_price : R) (quantity : ℕ) (signal : Signal R) (sequence : ℕ)
      → Ensures IsSale
          (auto_exit_event table settings bars buy_bar buy_price quantity signal sequence)
  unfolding auto_exit_event
  auto_exit_event-IsSale table settings bars buy_bar buy_price quantity signal sequence =
      Ensures->>= IsSale IsSale
        (controlled_exit_event table settings bars buy_bar buy_price quantity signal sequence) _
        (controlled_exit_event-IsSale table settings bars buy_bar buy_price quantity signal
          sequence)
        λ (event, line) h.
          after_controlled-IsSale event line _ _ h
            (holding_exit-IsSale bars buy_bar quantity signal sequence line)
