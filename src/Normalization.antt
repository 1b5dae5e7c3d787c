-- ===== src/Normalization.antt =====
-- src/normalization.cpp.
pub mod Loops
mod Chars
pub mod Quotes
pub mod Comments
pub mod Numbers
pub mod Spaces
pub mod Negative
pub mod Pattern
mod Tests
