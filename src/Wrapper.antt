-- ===== src/Wrapper.antt =====
-- Wrapping of tokens into USDC: marketBackend/src/types/wrapper.ts and
-- marketBackend/src/services/wrapperService.ts.
pub mod Store
pub mod Service
pub mod Outcome
