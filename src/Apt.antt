-- ===== src/Apt.antt =====
-- addons/bootstrap/apt: stanzas, sources and their installation.
pub mod Text
pub mod Stanza
pub mod Source
pub mod Installer
pub mod Cache
pub mod Download
pub mod Packages
mod Tests
