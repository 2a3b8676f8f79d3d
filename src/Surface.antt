-- ===== src/Surface.antt =====
-- surface: the manifest of a console surface, and the endpoints that serve it.
mod Tests
pub mod Manifest
pub mod Handlers
pub mod Caller
