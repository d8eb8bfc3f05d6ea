-- ===== src/Lab1.antt =====
-- Lab1: a program that copies a file to the standard output.
pub mod MyCat
mod Tests
