-- ===== src/Amqp.antt =====
-- rpc/amqp/amqp.go: the AMQP transport.
mod Tests
mod ConnectionTests
pub mod ClientTests
mod RebindTests
mod ScheduleTests
mod WatchdogTests
pub mod Delivery
pub mod Consume
pub mod Connection
pub mod Watchdog
pub mod Client
pub mod Rebind
pub mod Schedule
