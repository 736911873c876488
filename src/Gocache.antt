-- ===== src/Gocache.antt =====
-- addons/gocache: the storage of the Go build cache server.
pub mod Backend
pub mod Layered
pub mod Chain
pub mod Frontend
pub mod Http
pub mod Server
pub mod Disk
mod Tests
