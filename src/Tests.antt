-- ===== src/Tests.antt =====
-- The functions run on concrete inputs, and the theorems applied to them.
mod Sorting
mod Parallel
mod Psorting
mod Classes
mod Words
mod Counting
mod Daemons
mod Programs
mod Numbers
mod Strings
mod Transfers
mod Library
mod Threads
mod Splitting
