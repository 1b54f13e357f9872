-- ===== src/Backtest/Broker/Audited.antt =====
-- The audit rows of the broker: which signals they are of.
use qmt_trading.Base.{ℕ, ◌+◌, ◌≤◌, ◌≡◌, Bool, Option, List, ◌++◌, map, All, length}
use mathlib.Core.List.{Perm}
use mathlib.Core.List.Perm
use qmt_trading.Text.{Text, codes}
use qmt_trading.Dict.{lookup}
use qmt_trading.Float.{Float}
use qmt_trading.Backtest.Types.{Action, sell, Signal, Event, Audit}
use qmt_trading.Backtest.Portfolio.{Portfolio}
use qmt_trading.Backtest.Broker.{State}
use qmt_trading.Backtest.Broker.Rows.{auto_exit_key}

-- What an audit row says of its signal: time, symbol, action, price, amount, reason, and whether the
-- broker arranged it.
abbrev pub Said : Type 0 → Type 0
Said R = Text × Text × Action × R × Option R × Text × Bool

module _ {R : Type 0} where
  abbrev pub said_by : Audit R → Said R
  said_by a = (a.signal_time, a.symbol, a.action, a.price, a.amount, a.reason, a.is_auto_exit)

  abbrev pub IsSell : Signal R → Type 0
  IsSell s = s.action ≡ sell

module _ {R : Type 0} ⦃F : Float R⦄ where
  abbrev pub said_of : Signal R → Said R
  said_of s = (
    s.signal_time,
    s.symbol,
    s.action,
    s.price,
    s.amount,
    s.reason,
    auto_exit_key (lookup (codes "_auto_exit") s.extra),
  )

  abbrev said_of_event : Event R → Said R
  said_of_event e = said_of e.signal

  -- The audit rows and the pending events, with the events taken and not yet written, say what
  -- `base` and the exits say. `room` of the trades have arranged no exit yet.
  record Told (base taken : List (Said R)) (room : ℕ) (s : State R) : Type 0 where
    exits : List (Signal R)
    same :
        Perm
          (taken ++ (map said_by s.audits ++ map said_of_event s.pending))
          (base ++ map said_of exits)
    few : length exits + room ≤ length s.trades
    sales : All IsSell exits
