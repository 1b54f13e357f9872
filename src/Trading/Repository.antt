-- ===== src/Trading/Repository.antt =====
-- TradingRepository (backend/repositories/trading_center/trading_repository.py), table by table.
mod Orders
mod Signals
mod Queries
unfoldable pub use Orders.*
unfoldable pub use Signals.*
unfoldable pub use Queries.*
