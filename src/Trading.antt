-- ===== src/Trading.antt =====
-- Orders, trades and their settlement in the ledger: marketBackend/src/types/trading.ts,
-- marketBackend/src/infra/database/repositories/tradingRepository.ts,
-- marketBackend/src/infra/queue/matchingWorkerHandler.ts,
-- marketBackend/src/services/settlementService.ts and
-- marketBackend/src/services/tradingService.ts.
pub mod Types
pub mod Store
pub mod Amounts
pub mod Settle
pub mod Worker
pub mod Matching
pub mod Service
pub mod Settlement
