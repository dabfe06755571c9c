-- ===== src/Kernel.antt =====
-- The kernel proper: the process table (include/sys/proc.h), the scheduler and the clock, the
-- segment descriptors, and message passing (kernel/proc.c, kernel/protect.c, kernel/clock.c).
pub mod State
pub mod Memory
pub mod Descriptor
pub mod Schedule
pub mod Ipc
pub mod Clock
pub mod System
pub mod Boot
mod Tests
