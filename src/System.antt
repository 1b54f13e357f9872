-- ===== src/System.antt =====
-- System administration (backend/services/system, backend/repositories/system): the background tasks.
pub mod Tasks
pub mod Service
pub mod Cleanup
mod Tests
