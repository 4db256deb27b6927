-- ===== src/Posix.antt =====
-- The system calls that the programs make are not part of the repository. Here is what is relied
-- on: each call ends as the environment chooses, and a list of `Event`s is what it chooses for
-- the calls to come. `read` takes bytes from the front of what the other end has sent, `write` adds
-- to the end of what it has received. A call for which no event is left has not returned.
use Prim.Native.Nat.{min}
use sysprogramming_examples.Prelude.{
  ℕ, suc, List, [], ◌∷◌, ◌++◌, ℤ, pos, negsuc, Option, none, some,
}
use sysprogramming_examples.Memory.{length, take, drop}

-- `errno`, as far as the programs look at it.
pub data Errno : Type 0 where
  eintr emfile enoent : Errno
  other_errno : ℕ → Errno

-- `transfer k`: the call moves at most k + 1 bytes; `fails e`: it returns -1 and sets errno.
pub data Event : Type 0 where
  transfer : ℕ → Event
  fails : Errno → Event

-- What `read(fd, buf, count)` returns, what it stores, and what is left to read. 0 is returned at
-- the end of the input only, for a `count` that is not 0.
pub record ReadResult : Type 0 where
  pub value : ℤ
  pub errno : Option Errno
  pub bytes : List ℕ
  pub input : List ℕ

abbrev pub read : Event → (count : ℕ) → (input : List ℕ) → ReadResult
read (transfer k) count input =
    let n = min (suc k) (min count (length input)) in
    record { value = pos n; errno = none; bytes = take n input; input = drop n input }
read (fails e) count input = record { value = negsuc 0; errno = some e; bytes = []; input = input }

-- What `write(fd, buf, count)` returns and what the other end has received.
pub record WriteResult : Type 0 where
  pub value : ℤ
  pub errno : Option Errno
  pub output : List ℕ

abbrev pub write : Event → (buf : List ℕ) → (output : List ℕ) → WriteResult
write (transfer k) buf output =
    let n = min (suc k) (length buf) in
    record { value = pos n; errno = none; output = output ++ take n buf }
write (fails e) buf output = record { value = negsuc 0; errno = some e; output = output }

-- The events that let a call move bytes.
abbrev pub transfers : List Event → ℕ
transfers [] = 0
transfers (transfer k ∷ es) = suc (transfers es)
transfers (fails e ∷ es) = transfers es
