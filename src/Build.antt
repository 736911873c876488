-- ===== src/Build.antt =====
-- addons/build: the strategies that build a repository, and the builds of services.
pub mod Strategy
pub mod Order
pub mod Services
pub mod BeforeStart
mod Tests
