-- ===== src/Trading.antt =====
-- Trading execution: orders, signals and their idempotency (backend/services/trading_center,
-- backend/repositories/trading_center, backend/adapters/qmt/qmt_trade_adapter.py).
pub mod Status
pub mod Tables
pub mod Monad
pub mod Keeping
pub mod Repository
pub mod Unique
pub mod Holdings
pub mod Adapter
pub mod Service
pub mod Sync
mod Tests
