-- ===== src/RfdCheck.antt =====
-- scripts/check-rfd-numbers.py: the check that RFD numbers agree wherever they are written.
pub mod Patterns
pub mod FileTree
pub mod Numbers
pub mod Citations
pub mod Links
pub mod Aliases
pub mod Check
pub mod Run
pub mod SelfTest
pub mod Main
mod Tests
