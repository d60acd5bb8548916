-- ===== src/Scheduler.antt =====
-- scheduler.h and scheduler.c: the process table, the files of a process, and the context switch.
pub mod State
pub mod Pid
pub mod Files
pub mod Create
pub mod Switch
mod Tests
