-- ===== src/Lab3.antt =====
-- Lab3: the exercises on character devices, wait queues and lists.
pub mod Seek
pub mod Generic
pub mod Char
pub mod WaitEvent
pub mod MyList
mod Tests
