-- ===== src/Diags.antt =====
-- addons/diags: sources send contents to a collector, which writes an archive.
pub mod Contents
pub mod Collector
pub mod Collection
mod Tests
