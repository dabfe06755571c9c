-- ===== src/Library.antt =====
-- The string routines that tasks and user programs are linked with: lib/.
pub mod Text
pub mod Format
mod Tests
