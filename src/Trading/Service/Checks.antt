-- ===== src/Trading/Service/Checks.antt =====
-- The checks of TradingService before an order is made
-- (backend/services/trading_center/trading_service.py), and what the service is given from outside.
use qmt_trading.Base.{
  ℕ, ◌*◌, ◌%◌, Bool, true, not, ◌&&◌, ◌==◌, ltb, Option, none, some, [], ◌∷◌, ◌++◌, if◌then◌else◌,
}
use qmt_trading.Base.Int.{pos_part}
use qmt_trading.Text.{Text, codes, is_empty, text_eq, one_of}
use qmt_trading.Float.{
  Float, Truncated, whole, not_a_number, infinite, of_ℕ, lit, mul, div, lt, nonzero, trunc, format,
}
use qmt_trading.Text.Symbol.{is_order_symbol}
use qmt_trading.Value.{show_ℕ}
use qmt_trading.Trading.Tables.{Source, manual, from_signal, AccountRow, PositionRow}
use qmt_trading.Trading.Monad.{
  Action, return, throw, gets, or_throw, throw_if, ◌>>=◌, ◌>>◌, real_trading_not_enabled,
  bad_symbol, bad_side, bad_lot, over_max_amount, no_account, short_cash, short_position,
  zero_division, bad_value, overflow,
}
use qmt_trading.Trading.Adapter.{Adapter, test_isolation, disabled_real}
use qmt_trading.Trading.Repository.{get_position, latest_account}

pub record Config (R : Type 0) : Type 0 where
  pub simulation_mode : Bool
  pub account_id : Text
  pub max_order_amount : R
  pub default_order_amount : R

-- The service, and what one call of it is given from outside: the system's configuration as the
-- call reads it, the adapter chosen when the service was built, the new numbers (uuid4), the time,
-- the minute (`int(time.time() // 60)`), the hash, and the names of stocks in two other tables.
pub record Service (R : Type 0) : Type 0 where
  pub config : Config R
  pub adapter : Adapter
  pub fresh_order : Text
  pub fresh_qmt : Text
  pub now : Text
  pub minute : ℕ
  pub sha256 : Text → Text
  pub stock : Text → Option Text
  pub quote : Text → Option Text

abbrev shown_id : Option ℕ → Text
shown_id none = []
shown_id (some n) = if n == 0 then [] else show_ℕ n

abbrev source_word : Source → Text
source_word manual = codes "manual"
source_word from_signal = codes "signal"

abbrev bar : Text → Text → Text
bar a b = a ++ codes "|" ++ b

abbrev minute_or_blank : Text → ℕ → Text
minute_or_blank shown minute = if is_empty shown then show_ℕ minute else []

-- The adapter that the service is built with.
abbrev pub chosen_adapter : Bool → Adapter
chosen_adapter simulation_mode = if simulation_mode then test_isolation else disabled_real

abbrev lots_or_one : ℕ → ℕ
lots_or_one n = if ltb (n * 100) 100 then 100 else n * 100

-- `int(x) * 100`, at least one lot.
abbrev pub lots_of_amount : {R : Type 0} → Truncated → Action R ℕ
lots_of_amount (whole z) = return (lots_or_one (pos_part z))
lots_of_amount not_a_number = throw bad_value
lots_of_amount infinite = throw overflow

module _ {R : Type 0} ⦃F : Float R⦄ where
  unfoldable pub ensure_submit_allowed : Service R → Action R (Unit {0})
  ensure_submit_allowed v = throw_if (not v.config.simulation_mode) real_trading_not_enabled

  unfoldable pub trading_account_filter : Service R → Option Text
  trading_account_filter v =
      if v.config.simulation_mode
      then some (codes "test_isolation_account")
      else if is_empty v.config.account_id
      then none
      else some v.config.account_id

  unfoldable pub validate_order : Service R → Text → Text → R → ℕ → Action R (Unit {0})
  unfolding is_order_symbol
  validate_order v symbol side price quantity = do
    throw_if (not (is_order_symbol symbol)) bad_symbol
    throw_if (not (one_of side (codes "BUY" ∷ codes "SELL" ∷ []))) bad_side
    throw_if (not (quantity % 100 == 0)) bad_lot
    throw_if (lt v.config.max_order_amount (mul price (of_ℕ quantity))) over_max_amount

  abbrev short_of : ℕ → Option (PositionRow R) → Bool
  short_of quantity none = true
  short_of quantity (some p) = ltb p.available_quantity quantity

  unfoldable pub validate_buy_sell_capacity :
      Service R → R → Text → Text → R → ℕ → Action R (Unit {0})
  unfolding text_eq get_position trading_account_filter
  validate_buy_sell_capacity v cash symbol side price quantity = do
    throw_if (text_eq side (codes "BUY") && lt cash (mul price (of_ℕ quantity))) short_cash
    position ← gets (get_position symbol (trading_account_filter v))
    throw_if (text_eq side (codes "SELL") && short_of quantity position) short_position

  unfoldable pub require_account : Service R → Action R (AccountRow R)
  unfolding latest_account trading_account_filter
  require_account v = do
    account ← gets (latest_account (trading_account_filter v))
    or_throw no_account account

  unfoldable pub stock_name : Service R → Text → Text
  stock_name v symbol = elim (v.stock symbol) [
    | some name ↦ name
    | none ↦ elim (v.quote symbol) [ some name ↦ name | none ↦ symbol ]
  ]

  abbrev raw_amount : Service R → Option R → R
  raw_amount v none = v.config.default_order_amount
  raw_amount v (some a) = if nonzero a then a else v.config.default_order_amount

  unfoldable pub quantity_from_amount : Service R → Option R → R → Action R ℕ
  quantity_from_amount v amount price =
      throw_if (not (nonzero price)) zero_division
      >> lots_of_amount (trunc (div (div (raw_amount v amount) price) (lit 100 0)))

  unfoldable pub idempotency_key : Service R → Text → Text → Text → R → ℕ → Source → Option ℕ → Text
  unfolding show_ℕ
  idempotency_key v account symbol side price quantity source signal_id =
      let shown = shown_id signal_id in
      v.sha256 (
        bar account (
          bar symbol (
            bar side (
              bar (format 4 price) (
                bar (show_ℕ quantity)
                  (bar (source_word source) (bar shown (minute_or_blank shown v.minute))))))))
