-- ===== src/Itskylib.antt =====
-- posix/lib/lib.c: the functions that the example programs share.
pub mod Errors
pub mod Files
pub mod Split
pub mod Transfer
