-- ===== src/Backtest/Types.antt =====
-- The records that the backtest passes around: MarketBar, the task's settings
-- (backend/schemas/backtest.py), signals, pending events, trade rows, audit rows and log lines.
-- A log line or a skip reason is a constructor with what its text prints.
use qmt_trading.Base.{ℕ, Bool, Option}
use qmt_trading.Base.Int.{ℤ}
use qmt_trading.Text.{Text, codes}
use qmt_trading.Dict.{Dict}
use qmt_trading.Value.{Value}

pub record MarketBar (R : Type 0) : Type 0 where
  pub symbol : Text
  pub trade_date : Text
  pub open_price : R
  pub high : R
  pub low : R
  pub close : R
  pub volume : ℤ
  pub amount : R
  pub pre_close : R
  pub suspend_flag : ℤ
  pub name : Text
  pub bar_time : Option Text

pub record Settings (R : Type 0) : Type 0 where
  pub start_date : Text
  pub end_date : Text
  pub initial_cash : R
  pub single_order_amount : R
  pub data_frequency : Text
  pub fill_mode : Text
  pub fee_rate : R
  pub stamp_tax_rate : R
  pub slippage : R

abbrev pub minute_frequency : Text
minute_frequency = codes "分钟K"

pub data Action : Type 0 where
  buy sell watch : Action

-- A signal after validation: the six normalised keys, and the dict as it came, for its other keys.
pub record Signal (R : Type 0) : Type 0 where
  pub symbol : Text
  pub action : Action
  pub price : R
  pub amount : Option R
  pub reason : Text
  pub signal_time : Text
  pub extra : Dict (Value R)

-- A pending event of the broker.
pub record Event (R : Type 0) : Type 0 where
  pub signal : Signal R
  pub bar : Option (MarketBar R)
  pub sort_time : Text
  pub sequence : ℕ
  pub execution_price : Option R

-- The sides of a trade row, "BUY" and "SELL".
pub data Side : Type 0 where
  bought sold : Side

pub record Trade (R : Type 0) : Type 0 where
  pub symbol : Text
  pub name : Text
  pub side : Side
  pub price : R
  pub quantity : ℕ
  pub amount : R
  pub fee : R
  pub trade_time : Text
  pub reason : Text
  pub pnl : R

pub data Skip : Type 0 where
  watch_only : Text → Text → Skip
  no_bar : Text → Skip
  out_of_range : Text → Text → Skip
  suspended : Text → Text → Skip
  limit_blocked : Text → Text → Action → Skip
  short_cash : Text → Skip
  no_holding : Text → Skip
  same_day : Text → Text → Skip
  below_lot : Text → Skip

pub data Status : Type 0 where
  observed unfilled skipped filled : Status

pub record Audit (R : Type 0) : Type 0 where
  pub signal_time : Text
  pub symbol : Text
  pub name : Text
  pub action : Action
  pub price : R
  pub amount : Option R
  pub reason : Text
  pub status : Status
  pub execution_time : Option Text
  pub execution_price : Option R
  pub quantity : ℕ
  pub skip_reason : Option Skip
  pub is_auto_exit : Bool

-- What the exit rules log when a buy is filled.
pub data ExitLog : Type 0 where
  needs_minute_bars : ExitLog
  no_exit_dates : Text → Text → ExitLog
  no_minute_rows : Text → ℕ → ExitLog
  exit_arranged : Text → Text → ℕ → ExitLog
  no_later_bar : Text → Text → ExitLog
  holding_arranged : Text → Text → ℕ → ExitLog
  both : ExitLog → ExitLog → ExitLog

pub data Log : Type 0 where
  skip_line : Skip → Log
  exit_line : ExitLog → Log

-- What `_validate_signals` refuses a strategy's result for.
pub data Fault : Type 0 where
  not_a_list not_a_dict missing_field bad_action bad_symbol bad_price price_not_positive
        bad_amount :
      Fault
  negative_amount empty_reason bad_time future_signal signal_out_of_range : Fault

-- The exceptions that leave the broker and the validation of signals.
pub data Error : Type 0 where
  cancelled zero_division value_error overflow : Error
  bad_signal : Fault → Error

pub data Result {ℓ} (A : Type ℓ) : Type ℓ where
  ok : A → Result A
  raise : Error → Result A

infixl 5 ◌>>=◌ ◌>>◌
abbrev pub ◌>>=◌ {ℓ κ} : {A : Type ℓ} {B : Type κ} → Result A → (A → Result B) → Result B
ok a >>= f = f a
raise e >>= f = raise e

abbrev pub ◌>>◌ {ℓ κ} : {A : Type ℓ} {B : Type κ} → Result A → Result B → Result B
m >> k = m >>= λ _. k
