-- ===== src/Webhook.antt =====
-- internal/webhook: admission of ModelEndpoints.
pub mod Arn
pub mod Validate
pub mod Default
