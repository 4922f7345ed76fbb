-- ===== src/Transaction.antt =====
-- The transactions of markets: their table, and marketBackend/src/services/transactionManager.ts.
pub mod Store
pub mod Manager
pub mod Attempts
pub mod Races
