-- ===== src/Kern.antt =====
-- kernel/kern: the copies of memory, the scheduler, the line editor, the digits of
-- a number, and the call that waits for a key.
pub mod Memory
pub mod Sched
pub mod KeyWait
pub mod Line
pub mod Format
