-- ===== src/Bootstrap.antt =====
-- Bootstrap: addons/bootstrap.
pub mod Step
pub mod Plan
mod Tests
