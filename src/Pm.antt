-- ===== src/Pm.antt =====
-- The process manager: addons/pm.
pub mod Api
pub mod Child
pub mod Run
pub mod Daemon
pub mod Resource
pub mod Http
mod Tests
