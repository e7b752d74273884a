-- ===== src/Libc.antt =====
-- The C library of Userland/Libraries/LibC.
pub mod Strings
pub mod Memory
pub mod Numbers
mod Tests
