-- ===== src/Trading/Sync.antt =====
-- The two sync tasks of TradingService (backend/services/trading_center/trading_service.py): they pull
-- the state of each order from the adapter, and the trade of each order that is filled. The rows of
-- the task itself, and the line of operation_log at its end, are left out; whether the task was
-- cancelled is asked before each row.
use qmt_trading.Base.{ℕ, suc, ◌+◌, Bool, true, false, not, Option, none, some, List, [], ◌∷◌, ◌++◌}
use qmt_trading.Text.{codes, text_eq}
use qmt_trading.Float.{Float}
use qmt_trading.Trading.Status.{OrderStatus, all_filled, word}
use qmt_trading.Trading.Tables.{Order, TradeRow}
use qmt_trading.Trading.Monad.{Action, return, gets, throw_if, modify, ◌>>=◌, ◌>>◌, task_cancelled}
use qmt_trading.Trading.Adapter.{sync_order_status, build_test_isolation_trade}
use qmt_trading.Trading.Repository.{
  update_order_status, add_log, all_orders_for_sync, has_trade_for_order,
}
use qmt_trading.Trading.Holdings.{upsert_trade_and_apply_effect}
use qmt_trading.Trading.Service.{lift}
use qmt_trading.Trading.Service.Checks.{Service, trading_account_filter}

abbrev pub full_quantity : OrderStatus → ℕ → Option ℕ
full_quantity all_filled n = some n
full_quantity _ n = none

module _ {R : Type 0} ⦃F : Float R⦄ where
  abbrev pub log_change : Bool → Order R → Action R ℕ
  log_change true o =
      modify (add_log (some o.local_order_id) (codes "info") (codes "委托状态同步为：" ++ word o.status))
      >> return 1
  log_change false o = return 0

  -- One row of the order sync: one where the state of the order changed.
  unfoldable pub sync_order_row : Service R → Order R → Action R ℕ
  unfolding sync_order_status update_order_status word text_eq add_log
  sync_order_row v o = do
    result ← lift (sync_order_status v.adapter o)
    updated ←
        update_order_status o.local_order_id result.status (some result.qmt_status)
          (full_quantity result.status o.quantity) v.now
    log_change (not (text_eq (word updated.status) (word o.status))) updated

  -- One row of the trade sync: one where a trade was written.
  abbrev pub write_trade : Service R → Order R → Option (TradeRow R) → Bool → Action R ℕ
  write_trade v o none known = return 0
  write_trade v o (some t) true = return 0
  write_trade v o (some t) false = do
    _ ← upsert_trade_and_apply_effect t v.now
    modify (add_log (some o.local_order_id) (codes "info") (codes "成交记录同步完成。"))
    return 1

  unfoldable pub sync_trade_row : Service R → Order R → Action R ℕ
  unfolding build_test_isolation_trade has_trade_for_order upsert_trade_and_apply_effect add_log
  sync_trade_row v o = do
    trade ← lift (build_test_isolation_trade v.adapter v.now o)
    known ← gets (has_trade_for_order o.local_order_id)
    write_trade v o trade known

  -- `cancelled n` answers the check before the n-th row.
  unfoldable pub sync_rows : (ℕ → Bool) → ℕ → (Order R → Action R ℕ) → List (Order R) → Action R ℕ
  sync_rows cancelled n row [] = return 0
  sync_rows cancelled n row (o ∷ os) = do
    throw_if (cancelled n) task_cancelled
    changed ← row o
    rest ← sync_rows cancelled (suc n) row os
    return (changed + rest)

  unfoldable pub run_sync : (ℕ → Bool) → (Order R → Action R ℕ) → Service R → Action R ℕ
  unfolding sync_rows all_orders_for_sync trading_account_filter
  run_sync cancelled row v = do
    throw_if (cancelled 0) task_cancelled
    rows ← gets (all_orders_for_sync (trading_account_filter v))
    sync_rows cancelled 1 row rows

  unfoldable pub run_order_sync_task : (ℕ → Bool) → Service R → Action R ℕ
  unfolding run_sync sync_order_row
  run_order_sync_task cancelled v = run_sync cancelled (sync_order_row v) v

  unfoldable pub run_trade_sync_task : (ℕ → Bool) → Service R → Action R ℕ
  unfolding run_sync sync_trade_row
  run_trade_sync_task cancelled v = run_sync cancelled (sync_trade_row v) v
