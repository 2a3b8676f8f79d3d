-- ===== src/Reconcile.antt =====
-- sdk/reconcile: registration, dispatch and auto-emission.
mod Tests
mod RemoteTests
pub mod Identify
pub mod Legacy
pub mod Emission
pub mod Operations
pub mod Registry
pub mod Remote
