-- ===== src/Text.antt =====
-- Texts as the program handles them: printed numbers and comparisons.
pub mod Digits
pub mod Compare
pub mod Stoi
pub mod StringRef
