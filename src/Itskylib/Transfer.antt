-- ===== src/Itskylib/Transfer.antt =====
-- posix/lib/lib.c: readn and writen, which go on after a partial transfer or an interruption. Each
-- loop makes one call for each event.
pub mod Laws
use sysprogramming_examples.Prelude.{
  ℕ, zero, suc, ◌+◌, ◌-◌, ◌==◌, ◌≡◌, Bool, true, false, List, [], ◌∷◌, ◌++◌, Option, none, some, ℤ,
  pos, negsuc, is_neg, if◌then◌else◌,
}
use Prim.Native.Nat.{min}
use sysprogramming_examples.Memory.{length, drop}
use sysprogramming_examples.Posix.{Errno, eintr, Event, transfer, fails, read, write}

-- The value returned, the bytes in the buffer, and what is left to read; or a call that has not
-- returned.
pub data ReadOutcome : Type 0 where
  finished : (value : ℤ) (buf input : List ℕ) → ReadOutcome
  waiting : (buf input : List ℕ) → ReadOutcome

abbrev pub is_eintr : Errno → Bool
is_eintr eintr = true
is_eintr e = false

-- The loop of readn; `buf` holds the `read_size` bytes up to `buf_ptr`.
pub readn_loop : List Event → (rest_size read_size : ℕ) → (buf input : List ℕ) → ReadOutcome
readn_loop events zero read_size buf input = finished (pos read_size) buf input
readn_loop [] (suc rest_size) read_size buf input = waiting buf input
readn_loop (fails e ∷ events) (suc rest_size) read_size buf input =
    let again = readn_loop events (suc rest_size) read_size buf input in
    if is_eintr e then again else finished (read (fails e) (suc rest_size) input).value buf input
readn_loop (transfer k ∷ events) (suc rest_size) read_size buf input =
    let r = read (transfer k) (suc rest_size) input in
    let partial_size = length r.bytes in
    let more =
      readn_loop events (suc rest_size - partial_size) (read_size + partial_size) (buf ++ r.bytes)
        r.input in
    if partial_size == 0 then finished (pos read_size) buf input else more

unfoldable pub readn : (fd : ℤ) → List Event → (total_size : ℕ) → (input : List ℕ) → ReadOutcome
readn fd events total_size input =
    if is_neg fd then finished fd [] input else readn_loop events total_size 0 [] input

pub data WriteOutcome : Type 0 where
  finished : (value : ℤ) (output : List ℕ) → WriteOutcome
  waiting : (output : List ℕ) → WriteOutcome

-- The loop of writen; `rest` are the bytes from `buf_ptr` on.
pub writen_loop :
    List Event → (rest : List ℕ) → (written_size : ℕ) → (output : List ℕ) → WriteOutcome
writen_loop events [] written_size output = finished (pos written_size) output
writen_loop [] (b ∷ rest) written_size output = waiting output
writen_loop (fails e ∷ events) (b ∷ rest) written_size output =
    let again = writen_loop events (b ∷ rest) written_size output in
    if is_eintr e then again else finished (write (fails e) (b ∷ rest) output).value output
writen_loop (transfer k ∷ events) (b ∷ rest) written_size output =
    let partial_size = min (suc k) (length (b ∷ rest)) in
    let more =
      writen_loop events (drop partial_size (b ∷ rest)) (written_size + partial_size)
        (write (transfer k) (b ∷ rest) output).output in
    if partial_size == 0 then finished (pos written_size) output else more

unfoldable pub writen : (fd : ℤ) → List Event → (buf : List ℕ) → (output : List ℕ) → WriteOutcome
writen fd events buf output =
    if is_neg fd then finished fd output else writen_loop events buf 0 output
