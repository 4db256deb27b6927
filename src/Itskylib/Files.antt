-- ===== src/Itskylib/Files.antt =====
-- posix/lib/lib.c: open_retry_mode, open_retry, check_file, create_if_missing and is_help_requested.
-- What `open`, `lstat`, `creat` and `close` answer is given by the environment; `sprintf` and the
-- numbers of `errno` are parameters.
pub mod Laws
use sysprogramming_examples.Prelude.{
  ℕ, zero, suc, Bool, true, false, ◌&&◌, ◌||◌, List, [], ◌∷◌, ◌++◌, Option, some, ℤ, pos, negsuc,
  is_zero, leb, ltb, if◌then◌else◌,
}
use Prim.Native.String.{String}
use sysprogramming_examples.Prelude.Run.{Run, ok, fault}
use sysprogramming_examples.Memory.{length}
use sysprogramming_examples.SortCommon.{strcmp}
use sysprogramming_examples.Posix.{Errno, eintr, emfile, enoent, other_errno}
use sysprogramming_examples.Itskylib.Errors.{
  ExitType, process_exit, no_exit, Output, Control, returned, thread_ended, exited, Effect,
  handle_error, overflows, Lengths,
}

-- What a call that opens or creates a file answers.
pub data OpenEvent : Type 0 where
  opens : (fd : ℕ) → OpenEvent
  refuses : Errno → OpenEvent

-- How open_retry ends, with what is written and how often it has slept.
pub data OpenEnd : Type 0 where
  opened : (fd : ℕ) → List Output → (sleeps : ℕ) → List OpenEvent → OpenEnd
  ended : Control → List Output → OpenEnd
  waiting : OpenEnd

abbrev pub is_emfile : Errno → Bool
is_emfile emfile = true
is_emfile eintr = false
is_emfile enoent = false
is_emfile (other_errno n) = false

pub data FileType : Type 0 where
  not_existent directory regular_file other : FileType

-- What `lstat` answers: the kind of the file by S_ISDIR and S_ISREG, or an error.
pub data Stat : Type 0 where
  is_dir is_reg is_other : Stat
  stat_fails : Errno → Stat

-- The type, or the process ended with 1 and the error printed.
pub data Checked : Type 0 where
  file_type : FileType → Checked
  exits_with : (status : ℕ) → Errno → Checked

unfoldable pub check_file : Stat → Checked
check_file (stat_fails enoent) = file_type not_existent
check_file (stat_fails eintr) = exits_with 1 eintr
check_file (stat_fails emfile) = exits_with 1 emfile
check_file (stat_fails (other_errno n)) = exits_with 1 (other_errno n)
check_file is_dir = file_type directory
check_file is_reg = file_type regular_file
check_file is_other = file_type other

-- The size of the buffers for a message about a file
abbrev pub msg_size : ℕ
msg_size = 1024

module _ (errno_number : Errno → ℤ) (sprintf : (format file : String) → String)
    (lengths : Lengths) where
  abbrev pub open_message : (file : String) → String
  open_message file = sprintf "error while opening file=%s" file

  -- The loop of open_retry and of open_retry_mode, which differ in the arguments of `open` only.
  -- `out` is what is written so far, `sleeps` counts the calls of `sleep(1)`.
  unfoldable pub open_retry_loop :
      List OpenEvent → (file : String) → ExitType → (out : List Output) → (sleeps : ℕ) → OpenEnd
  open_retry_loop [] file et out sleeps = waiting
  open_retry_loop (opens fd ∷ events) file et out sleeps = opened fd out sleeps events
  open_retry_loop (refuses e ∷ events) file et out sleeps =
      let msg = open_message file in
      let effect = handle_error lengths (errno_number e) (negsuc 0) (some msg) et in
      let after_sleep = open_retry_loop events file et out (suc sleeps) in
      let again = open_retry_loop events file et (out ++ effect.outputs) sleeps in
      let reported : OpenEnd = elim effect.control [
        | returned ↦ again
        | thread_ended ↦ ended thread_ended (out ++ effect.outputs)
        | overflows ↦ ended overflows out
        | exited n ↦ ended (exited n) (out ++ effect.outputs)
      ] in
      let failed = if ltb (lengths.strlen msg) msg_size then reported else ended overflows out in
      if is_emfile e then after_sleep else failed

  unfoldable pub open_retry : List OpenEvent → (file : String) → ExitType → OpenEnd
  open_retry events file et = open_retry_loop events file et [] 0

  -- What a call of handle_error with NO_EXIT has written, behind which `value` is returned.
  unfoldable pub with_report : (value : ℤ) → Effect → Run (ℤ × List Output)
  with_report value effect = elim effect.control [
    | returned ↦ ok (value, effect.outputs)
    | thread_ended ↦ fault
    | overflows ↦ fault
    | exited n ↦ fault
  ]

  -- The result and what is written. `close_result` is what `close` returns, `errno` what it is then. A
  -- message that does not fit into its buffer is a fault.
  unfoldable pub create_if_missing :
      OpenEvent → (close_result errno : ℤ) → (pathname : String) → Run (ℤ × List Output)
  create_if_missing (refuses e) close_result errno pathname =
      let message = sprintf "could not create file=\"%s\"." pathname in
      let reported =
        with_report (negsuc 0)
          (handle_error lengths (errno_number e) (negsuc 0) (some message) no_exit) in
      if ltb (lengths.strlen message) msg_size then reported else fault
  create_if_missing (opens fd) close_result errno pathname =
      with_report close_result (handle_error lengths errno (pos fd) (some "close") no_exit)

-- `argv`, each argument as its bytes, with `argc` elements.
unfoldable pub is_help_requested : (argv : List (List ℕ)) → Bool
is_help_requested [] = false
is_help_requested (program ∷ []) = false
is_help_requested (program ∷ arg ∷ args) =
    is_zero (strcmp arg (45 ∷ 104 ∷ []))
    || (is_zero (strcmp arg (45 ∷ 72 ∷ []))
        || (is_zero (strcmp arg (45 ∷ 104 ∷ 101 ∷ 108 ∷ 112 ∷ []))
            || is_zero (strcmp arg (45 ∷ 45 ∷ 104 ∷ 101 ∷ 108 ∷ 112 ∷ []))))
