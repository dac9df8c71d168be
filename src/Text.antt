-- ===== src/Text.antt =====
-- Go strings as the code reads them: cut at the separator "::", and rune by rune.
pub mod Split
pub mod Runes
