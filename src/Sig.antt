-- ===== src/Sig.antt =====
-- sig/hmac: the webhook signature verifiers.
mod Tests
pub mod Stripe
pub mod Hub
