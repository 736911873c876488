-- ===== src/Shx.antt =====
-- lib/shx: commands, their options, and the capture of their output.
pub mod Capture
pub mod Command
mod Tests
