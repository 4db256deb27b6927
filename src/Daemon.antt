-- ===== src/Daemon.antt =====
-- posix/daemon/daemon.c: a daemon that answers numbers with their squares. The functions of the C
-- library that it uses for text, `atoi` and `sprintf`, are parameters.
pub mod Square
pub mod Answers
pub mod LockFile
pub mod Options
