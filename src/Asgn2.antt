-- ===== src/Asgn2.antt =====
-- asgn2/asgn_2.c: a character device that is fed by interrupts, half a byte at a time.
pub mod Port
pub mod Device
pub mod Queue
pub mod Read
pub mod Gpio
pub mod Module
pub mod System
mod Tests
