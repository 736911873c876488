-- ===== src/Textedit.antt =====
-- addons/bootstrap/textedit: line editors, and the edit of a file by one.
pub mod Editor
pub mod Simple
pub mod Range
pub mod Replace
pub mod File
mod Tests
