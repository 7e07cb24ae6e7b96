-- ===== src/Text.antt =====
-- Python texts: a `str` is the list of its code points.
pub mod Defs
pub mod Canonical
pub mod Find
pub mod Found
