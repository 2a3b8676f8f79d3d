-- ===== src/Rpc.antt =====
-- rpc/transport.go: the contract between adapters and transports. A handler is a `Program`: it meets
-- the transport only through the three functions of its delivery.
mod Errors
mod Envelopes
mod Handlers
mod Deliveries
mod Invariant
unfoldable pub use Errors.*
pub use Envelopes.*
unfoldable pub use Handlers.*
unfoldable pub use Deliveries.*
pub use Invariant.*
