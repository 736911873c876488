-- ===== src/Stack.antt =====
-- addons/stack and service: the registry of services, their modes, and the stop of the stack.
pub mod Registry
pub mod Mode
pub mod Stop
pub mod Resources
pub mod Start
pub mod Context
mod Tests
