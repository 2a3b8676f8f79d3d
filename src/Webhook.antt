-- ===== src/Webhook.antt =====
-- webhookhttp: the webhook server.
mod Tests
pub mod Server
pub mod Stop
