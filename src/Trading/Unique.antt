-- ===== src/Trading/Unique.antt =====
-- The unique indexes of signal_order (backend/core/database.py): a signal has at most one row in it.
pub mod Linked
