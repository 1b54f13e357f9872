-- ===== src/Data.antt =====
-- The data center (backend/services/data_center, backend/adapters/qmt/data_standardizer.py): rows of QMT
-- brought to one form, and what is said about how complete and how recent the tables are.
pub mod Fields
pub mod Symbols
pub mod Standard
pub mod Coverage
pub mod Freshness
pub mod Quality
pub mod Requests
pub mod Windows
pub mod Triggers
mod Tests
