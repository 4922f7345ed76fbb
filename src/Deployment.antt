-- ===== src/Deployment.antt =====
-- The deployment of a market's token: marketBackend/src/infra/queue/tokenDeploymentHandler.ts and
-- marketBackend/src/services/usdcTokenService.ts.
pub mod Store
pub mod Worker
pub mod Outcome
pub mod Activated
