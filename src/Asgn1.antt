-- ===== src/Asgn1.antt =====
-- asgn1/asgn1.c: a character device that keeps its data in a list of memory pages.
pub mod Device
pub mod Read
pub mod Write
pub mod RoundTrip
pub mod Control
pub mod Access
pub mod Module
pub mod Client
pub mod File
pub mod Session
mod Tests
