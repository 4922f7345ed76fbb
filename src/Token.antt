-- ===== src/Token.antt =====
-- Tokens and balances: marketBackend/src/types/token.ts,
-- marketBackend/src/infra/database/repositories/tokenRepository.ts and
-- marketBackend/src/services/tokenService.ts.
pub mod Store
pub mod Service
pub mod Balances
pub mod Compliance
pub mod Coherence
