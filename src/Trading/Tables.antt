-- ===== src/Trading/Tables.antt =====
-- The tables that trading reads and writes (backend/core/database.py), newest row first, so that
-- `ORDER BY id DESC LIMIT 1` is the first row that fits. `id` is the place in the list.
use qmt_trading.Base.{ℕ, Bool, Option, List}
use qmt_trading.Text.{Text}
use qmt_trading.Trading.Status.{OrderStatus}

pub data Source : Type 0 where
  manual from_signal : Source

-- order_record; a signal's number is kept as a number.
pub record Order (R : Type 0) : Type 0 where
  pub local_order_id : Text
  pub qmt_order_id : Option Text
  pub account_id : Text
  pub symbol : Text
  pub name : Text
  pub side : Text
  pub price : R
  pub quantity : ℕ
  pub filled_quantity : ℕ
  pub status : OrderStatus
  pub qmt_status : Option Text
  pub source : Source
  pub strategy_id : Option ℕ
  pub signal_id : Option ℕ
  pub idempotency_key : Option Text
  pub order_time : Text
  pub updated_at : Text

-- strategy_signal.status: 未处理, 已下单, 已忽略, or another word.
pub data SignalStatus : Type 0 where
  unhandled ordered ignored : SignalStatus
  another : Text → SignalStatus

pub record SignalRow (R : Type 0) : Type 0 where
  pub id : ℕ
  pub strategy_id : ℕ
  pub symbol : Text
  pub name : Text
  pub action : Text
  pub price : R
  pub amount : Option R
  pub status : SignalStatus
  pub order_id : Option Text

-- signal_order.status: 已下单, or the state of the order.
pub data LinkStatus : Type 0 where
  linked : LinkStatus
  follows : OrderStatus → LinkStatus

pub record SignalOrder : Type 0 where
  pub signal_id : ℕ
  pub local_order_id : Text
  pub status : LinkStatus
  pub created_at : Text

pub record TradeRow (R : Type 0) : Type 0 where
  pub trade_id : Text
  pub local_order_id : Text
  pub qmt_order_id : Option Text
  pub account_id : Text
  pub symbol : Text
  pub name : Text
  pub side : Text
  pub price : R
  pub quantity : ℕ
  pub amount : R
  pub fee : R
  pub source : Source
  pub trade_time : Text

pub record PositionRow (R : Type 0) : Type 0 where
  pub account_id : Text
  pub symbol : Text
  pub name : Text
  pub quantity : ℕ
  pub available_quantity : ℕ
  pub cost_price : R
  pub last_price : R
  pub market_value : R
  pub pnl : R
  pub pnl_ratio : R
  pub snapshot_time : Text

pub record AccountRow (R : Type 0) : Type 0 where
  pub account_id : Text
  pub total_asset : R
  pub available_cash : R
  pub frozen_cash : R
  pub market_value : R
  pub today_pnl : R
  pub snapshot_time : Text

-- execution_log
pub record LogRow : Type 0 where
  pub local_order_id : Option Text
  pub level : Text
  pub message : Text

-- operation_log, of which the model keeps the action, the target and whether it went well.
pub record OperationRow : Type 0 where
  pub action : Text
  pub target_id : Text
  pub success : Bool

pub record Store (R : Type 0) : Type 0 where
  pub orders : List (Order R)
  pub strategy_files : List ℕ
  pub signals : List (SignalRow R)
  pub signal_orders : List SignalOrder
  pub trades : List (TradeRow R)
  pub positions : List (PositionRow R)
  pub accounts : List (AccountRow R)
  pub logs : List LogRow
  pub operations : List OperationRow
