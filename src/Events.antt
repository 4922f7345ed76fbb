-- ===== src/Events.antt =====
-- The approval decisions that arrive from the entity permissions service:
-- marketBackend/src/controllers/webhookController.ts,
-- marketBackend/src/services/eventListenerService.ts and
-- marketBackend/src/infra/database/repositories/processedEventRepository.ts.
pub mod Store
pub mod Webhook
pub mod Polling
pub mod Delivered
pub mod Decided
pub mod Polled
