-- ===== src/Mm.antt =====
-- The memory manager: mm/main.c and mm/forkexit.c.
pub mod Memory
pub mod Fork
mod Tests
