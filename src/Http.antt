-- ===== src/Http.antt =====
-- rpc/http/http.go: the server side, its registration and shutdown, and the client side.
mod Tests
mod TransportTests
pub mod Serve
pub mod Client
pub mod Transport
