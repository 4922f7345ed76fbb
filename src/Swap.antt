-- ===== src/Swap.antt =====
-- Swaps of one token for another over the bridge: marketBackend/src/types/swap.ts,
-- marketBackend/src/infra/database/repositories/swapRepository.ts,
-- marketBackend/src/services/swapService.ts and
-- marketBackend/src/infra/queue/swapWorkerHandler.ts.
pub mod Types
pub mod Store
pub mod Quote
pub mod Service
pub mod Worker
