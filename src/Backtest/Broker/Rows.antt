-- ===== src/Backtest/Broker/Rows.antt =====
-- The rows that the broker records: `_trade_row` and `_signal_audit_row`.
use qmt_trading.Base.{ℕ, Bool, false, Option, none, some, ◌++◌, if◌then◌else◌}
use qmt_trading.Text.{Text, codes, is_empty, or_text}
use qmt_trading.Dict.{lookup}
use qmt_trading.Float.{Float, of_ℕ, mul, round}
use qmt_trading.Value.{Value, text_or, truthy}
use qmt_trading.Backtest.Types.{MarketBar, Signal, Trade, Side, Audit, Status, Skip}
use qmt_trading.Backtest.Exits.Rows.{time_of}

module _ {R : Type 0} ⦃F : Float R⦄ where
  abbrev name_key : Signal R → Option (Value R)
  name_key signal = lookup (codes "name") signal.extra

  unfoldable pub trade_row : MarketBar R → Side → R → ℕ → R → R → Signal R → Trade R
  unfolding text_or lookup
  trade_row bar side price quantity fee pnl signal = record {
    symbol = bar.symbol;
    name = text_or (name_key signal) (or_text bar.name bar.symbol);
    side = side;
    price = price;
    quantity = quantity;
    amount = round 2 (mul price (of_ℕ quantity));
    fee = fee;
    trade_time = time_of bar;
    reason =
        if is_empty signal.signal_time
        then signal.reason
        else codes "信号时间 " ++ signal.signal_time ++ codes "；" ++ signal.reason;
    pnl = pnl;
  }

  abbrev time_or_none : Option (MarketBar R) → Option Text
  time_or_none none = none
  time_or_none (some bar) = some (time_of bar)

  abbrev pub auto_exit_key : Option (Value R) → Bool
  auto_exit_key none = false
  auto_exit_key (some v) = truthy v

  -- The row of a signal without a trade.
  unfoldable pub audit_row : Signal R → Status → Option (MarketBar R) → Option Skip → Audit R
  unfolding text_or lookup
  audit_row signal status bar skip = record {
    signal_time = signal.signal_time;
    symbol = signal.symbol;
    name = text_or (name_key signal) signal.symbol;
    action = signal.action;
    price = signal.price;
    amount = signal.amount;
    reason = signal.reason;
    status = status;
    execution_time = time_or_none bar;
    execution_price = none;
    quantity = 0;
    skip_reason = skip;
    is_auto_exit = auto_exit_key (lookup (codes "_auto_exit") signal.extra);
  }

  -- The row of a signal with its trade.
  unfoldable pub audit_of_trade : Signal R → Status → Trade R → Audit R
  unfolding audit_row
  audit_of_trade signal status trade = record (audit_row signal status none none) {
    execution_time = some trade.trade_time;
    execution_price = some trade.price;
    quantity = trade.quantity;
  }
