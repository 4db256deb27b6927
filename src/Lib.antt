-- ===== src/Lib.antt =====
-- sysprogramming-examples: example programs for system programming, and the library behind them.
--
-- The library (posix/lib) is what the programs share. It is modelled here, with the rounds of merging
-- of posix/threads/multithreaded-sort.c and the functions of posix/c/arithmetic.c.
--
-- Sort functions. posix/lib/isort.c, msort.c, hsort.c and ternary-hsort.c sort an array of `nmemb`
-- elements by a comparison callback with a third argument; the variants with a callback of two
-- parameters go through `compare_extend` of sort_common.c. An array is a list of elements (Memory),
-- so that an element's size does not appear and a pointer is an index. `memcpy`, `memmove` and the
-- exchange of elements fail with `fault` outside the array. Loops that are not bounded by an index
-- run on fuel and end with `no_fuel`; the theorems say `Returns`, which excludes both.
--   SortCommon     sort_common.c: the callbacks, compare_extend and swap_elements
--   Order          the contract of a callback, ascending order, what sorting and stable sorting mean
--   Isort, Msort   isort.c and msort.c, with the scratch array as an argument
--   Heap           what the heapsorts share: for a given choice of the child, sift_down and the loops
--   Hsort, TernaryHsort   hsort.c and ternary-hsort.c, which give Heap their choice of the child
--   SortFamily     the sort functions compared, and the variants with two parameters
-- Indices are taken modulo 2^64; arrays have at most 2^62 elements where a sum or product of indices
-- could wrap. `sift_down` has fuel for every index, the rounds of `msort_r` for every step and block.
--
-- Flashsort. posix/lib/fsort.c puts the elements into classes by a metric, moves them there in place
-- and sorts each class (Fsort, with the counts of the classes in Fsort/Classes). The arithmetic of
-- doubles is a parameter; the loops that move the elements have fuel for each element and one more.
--
-- Parallel sorting. posix/lib/psort.c divides an array into a segment for each thread; the threads
-- sort their segments and then merge them in pairs, in rounds that a barrier separates.
--   MergeTree      what both promise: blocks that are merged in pairs, in rounds, wherever they are
--   Psort          the division, and what a thread does in a round, on the array and `segments`;
--     Parallel has psort_r as a whole and its variants, Layout, Refinement and Rounds the rounds as a
--     refinement of MergeTree, Sorting and Split the phase before, Laws psort_r
-- Numbers of type `unsigned int` are taken modulo 2^32, and there are at most 2^31 threads. Between two
-- barriers the threads work on different parts of the memory: they take their turns one after
-- another, in an order that is a parameter. The loop over the rounds has fuel for each thread and one
-- more. `qsort_r` of the C library is a parameter.
-- posix/threads/multithreaded-sort.c does the same with an array of its own for each merged segment.
--   MultithreadedSort.Program, Output   the option, the division, the sort of the segments and what is
--     printed
--   MultithreadedSort   the rounds of merging, with the order of the threads in a round as a parameter;
--     there is fuel for a round for each thread and one more; a number of strings that does not fit into
--     an `int` is a fault
--
-- Sorted words. posix/socket/tcp-thread-sorted-once-server.c sends the sorted words of a file to each
-- client, in lines of 200 bytes; posix/threads/thread-sort-once.c prints them.
--   SortedWords    the option for the sort type, the sort, and what a client gets in a connection;
--     a length that does not fit into an `int` is a fault
--   SortedWords.Tokens, Laws   the words that a client finds in it
--   SortedWords.Printed   the lines on the standard output
--
-- Threads that count. posix/threads/thread-memory-count-mutex.c counts the bytes of its files in one
-- array, with a thread for each file and a mutex for each counter. What a thread does is a sequence of
-- steps between which the others may run (MemoryCount.Step); the reading and the writing of a counter
-- are steps of their own. main takes the mutex for the output for its message, too. The calls for files
-- and threads succeed.
--   MemoryCount    the steps, and the states that are reached by them in any order
--   MemoryCount.Invariant, Steps, Laws, Holders   what holds in all of them
--   MemoryCount.Termination, Progress   that the threads come to an end
--
-- Strings over sockets. posix/lib/transmission-protocols.c sends a length of four bytes and the bytes
-- of a string, and reads them whole or in pieces; it ends the thread or the process on errors.
-- System calls are not part of the repository: Posix gives what each may do, and a list of events
-- says what each call does in turn, how many bytes it moves or why it fails (Posix.Event).
--   TransmissionProtocols   write_string, write_eot, read_string_fragmentable, read_string,
--     read_and_store_string, and in Commands write_4byte_string and read_4byte_string
--
-- Daemon. posix/daemon/daemon.c starts a server in the background, whose process number is in a lock
-- file, and which reads strings with read_and_store_string and answers with write_string.
--   Daemon.LockFile   start, stop and status, the handlers that remove the lock file, its name, and the
--     sockets that are listened to
--   Daemon.Options    the arguments
--   Daemon.Square, Answers   what a client gets; there is a turn of the loop for each element of a list
--     of events, and a list of enough elements is given
--
-- Helpers. posix/lib/lib.c
--   Itskylib.Errors     exit_by_type and the handle_error family: what is written, and whether the
--     call comes back; a message that does not fit into its buffer is an outcome of its own
--   Itskylib.Transfer   readn and writen
--   Itskylib.Files      open_retry, open_retry_mode, check_file, create_if_missing, is_help_requested
--   Itskylib.Split      is_string_char and split_to_array; fuel for every byte of the buffer, and in
--     Collect the final array of pointers
--
-- Arithmetic. posix/c/arithmetic.c: addition and subtraction with carry of 64-bit words, products of
-- 128 bits, division of 128 by 64 bits, and the tests with 16-bit numbers (Arithmetic).
--
-- Prelude has the shared names, tests and signed numbers, and Prelude.Run the results of C
-- functions. Tests has the functions and the theorems on concrete inputs.
--
-- Not modelled: the metrics of fsort-metrics.c, read_to_array and get_future of
-- lib.c, the other example programs in posix, which are mostly calls of the system, and the programs
-- for win32 and akka. `malloc` and `alloca` always succeed here.
mod Prelude
pub mod Memory
pub mod SortCommon
pub mod Order
pub mod Isort
pub mod Msort
pub mod Heap
pub mod Hsort
pub mod TernaryHsort
pub mod SortFamily
pub mod Fsort
pub mod MergeTree
pub mod Psort
pub mod MultithreadedSort
pub mod SortedWords
pub mod MemoryCount
pub mod Arithmetic
pub mod Posix
pub mod Itskylib
pub mod TransmissionProtocols
pub mod Daemon
mod Tests
