-- ===== src/Backtest.antt =====
-- The local backtest (backend/services/backtest_center/backtest_engine.py): the portfolio, matching,
-- the event loop of the broker, exit rules, signal validation and the equity curve.
pub mod Types
pub mod Ensuring
pub mod Matching
pub mod Portfolio
pub mod Exits
pub mod Broker
pub mod Signals
pub mod Context
pub mod Metrics
mod Tests
