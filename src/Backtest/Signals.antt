-- ===== src/Backtest/Signals.antt =====
-- StrategyRunner._validate_signals and _normalize_signal_time: what a strategy returns becomes signals,
-- or the run ends. `read_time` is `datetime.strptime(...).strftime(...)` in the first of the formats
-- %Y-%m-%d %H:%M:%S and %Y-%m-%d that fits, and none where neither does.
pub mod Accepted
use qmt_trading.Base.{
  Bool, true, false, not, ◌||◌, Option, none, some, List, [], ◌∷◌, if◌then◌else◌,
}
use qmt_trading.Text.{Text, codes, strip, upper, is_empty, text_eq, text_lt, prefix}
use qmt_trading.Text.Symbol.{is_symbol}
use qmt_trading.Dict.{Dict, lookup}
use qmt_trading.Float.{Float, zero_f, le, lt}
use qmt_trading.Value.{Value, is_blank, to_float, to_text, text_or}
use qmt_trading.Backtest.Types.{
  Action, buy, sell, watch, Signal, Fault, not_a_list, not_a_dict, missing_field, bad_action,
  bad_symbol, bad_price, price_not_positive, bad_amount, negative_amount, empty_reason, bad_time,
  future_signal, signal_out_of_range, bad_signal, Result, ok, raise,
}

-- What the strategy's `run` returns: a list of dicts and other objects, or another object.
pub data Item (R : Type 0) : Type 0 where
  dict : Dict (Value R) → Item R
  other_item : Item R

pub data Returned (R : Type 0) : Type 0 where
  listed : List (Item R) → Returned R
  other_result : Returned R

-- The run that the signals are checked against.
pub record Period : Type 0 where
  pub current_date : Text
  pub start_date : Text
  pub end_date : Text

infixl 5 ◌>>=◌
unfoldable pub ◌>>=◌ : {A B : Type 0} → Result A → (A → Result B) → Result B
ok a >>= f = f a
raise e >>= f = raise e

abbrev pub demand : Bool → Fault → Result (Unit {0})
demand true fault = ok tt
demand false fault = raise (bad_signal fault)

abbrev pub or_fault : {A : Type 0} → Fault → Option A → Result A
or_fault fault none = raise (bad_signal fault)
or_fault fault (some a) = ok a

abbrev action_of : Text → Option Action
action_of t =
    if text_eq t (codes "BUY")
    then some buy
    else if text_eq t (codes "SELL")
    then some sell
    else if text_eq t (codes "WATCH")
    then some watch
    else none

unfoldable pub normalize_signal_time : (Text → Option Text) → Text → Text → Result Text
normalize_signal_time read_time current_date signal_time =
    if is_empty signal_time then ok current_date else or_fault bad_time (read_time signal_time)

abbrev out_of_period : Period → Text → Bool
out_of_period period date = text_lt date period.start_date || text_lt period.end_date date

module _ {R : Type 0} ⦃F : Float R⦄ where
  abbrev given_amount : Option R → Result (Option R)
  given_amount none = raise (bad_signal bad_amount)
  given_amount (some x) = if lt x zero_f then raise (bad_signal negative_amount) else ok (some x)

  unfoldable pub amount_of : Option (Value R) → Result (Option R)
  amount_of none = ok none
  amount_of (some v) = if is_blank v then ok none else given_amount (to_float v)

  unfoldable pub validate_signal :
      (Text → Option Text) → Period → Dict (Value R) → Result (Signal R)
  unfolding lookup to_text text_or strip upper is_symbol text_eq text_lt amount_of
      normalize_signal_time
  validate_signal read_time period d = do
    symbol_value ← or_fault missing_field (lookup (codes "symbol") d)
    action_value ← or_fault missing_field (lookup (codes "action") d)
    price_value ← or_fault missing_field (lookup (codes "price") d)
    reason_value ← or_fault missing_field (lookup (codes "reason") d)
    action ← or_fault bad_action (action_of (upper (strip (to_text action_value))))
    let symbol = upper (strip (to_text symbol_value))
    _ ← demand (is_symbol symbol) bad_symbol
    price ← or_fault bad_price (to_float price_value)
    _ ← demand (not (le price zero_f)) price_not_positive
    amount ← amount_of (lookup (codes "amount") d)
    let reason = strip (to_text reason_value)
    _ ← demand (not (is_empty reason)) empty_reason
    let given = strip (text_or (lookup (codes "signal_time") d) [])
    signal_time ← normalize_signal_time read_time period.current_date given
    _ ← demand (not (text_lt period.current_date (prefix 10 signal_time))) future_signal
    _ ← demand (not (out_of_period period (prefix 10 signal_time))) signal_out_of_range
    ok record {
      symbol = symbol;
      action = action;
      price = price;
      amount = amount;
      reason = reason;
      signal_time = signal_time;
      extra = d;
    }

  abbrev pub validate_item : (Text → Option Text) → Period → Item R → Result (Signal R)
  validate_item read_time period other_item = raise (bad_signal not_a_dict)
  validate_item read_time period (dict d) = validate_signal read_time period d

  unfoldable pub validate_items :
      (Text → Option Text) → Period → List (Item R) → Result (List (Signal R))
  validate_items read_time period [] = ok []
  validate_items read_time period (i ∷ is) = do
    signal ← validate_item read_time period i
    signals ← validate_items read_time period is
    ok (signal ∷ signals)

  unfoldable pub validate_signals :
      (Text → Option Text) → Period → Returned R → Result (List (Signal R))
  unfolding validate_items
  validate_signals read_time period other_result = raise (bad_signal not_a_list)
  validate_signals read_time period (listed is) = validate_items read_time period is
