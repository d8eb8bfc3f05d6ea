-- ===== src/Lab4.antt =====
-- Lab4: the exercises on data of an open file, locks and /proc.
pub mod PerOpen
pub mod Locks
pub mod Proc
mod Tests
