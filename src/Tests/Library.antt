-- ===== src/Tests/Library.antt =====
-- The error handlers and the file functions of posix/lib/lib.c.
use sysprogramming_examples.Prelude.{
  ◌≡◌, ◌↔◌, ◌⊎◌, false, List, [], ◌∷◌, ◌++◌, map, arith, some, ℤ, pos, negsuc, is_neg,
}
use Prim.Native.String.{String}
use sysprogramming_examples.Posix.{Errno, eintr, emfile, enoent, other_errno}
use sysprogramming_examples.Itskylib.Errors.{
  process_exit, no_exit, unknown_log_type, returned, handle_error_internal, Lengths,
}
use sysprogramming_examples.Itskylib.Errors.Laws.{handle_error_returns}
use sysprogramming_examples.Itskylib.Files.{OpenEnd, opened, opens, refuses, open_retry}
use sysprogramming_examples.Itskylib.Files.Laws.{complaints, open_retry_never_fails}

abbrev number : Errno → ℤ
number eintr = pos 4
number emfile = pos 24
number enoent = pos 2
number (other_errno n) = pos n

abbrev same_text : String → String → String
same_text format file = format

-- Short texts.
abbrev short : Lengths
short = record { strlen = λ s. 30; code_text = λ a b. 60 }

handle_error_returns_example :
    (handle_error_internal short
        (pos 2)
        (negsuc 0)
        (some "open")
        process_exit
        (unknown_log_type 7)).control
      ≡ returned
    ↔ (is_neg (negsuc 0) ≡ false) ⊎ (process_exit ≡ no_exit)
handle_error_returns_example =
    handle_error_returns short (pos 2) (negsuc 0) (some "open") process_exit (unknown_log_type 7)
      (omega arith, omega arith)

abbrev some_errors : List Errno
some_errors = enoent ∷ emfile ∷ eintr ∷ []

open_retry_never_fails_example :
    (open_retry number same_text short (map refuses some_errors) "data" no_exit ≡ OpenEnd.waiting)
    × (open_retry number same_text short (map refuses some_errors ++ opens 3 ∷ []) "data" no_exit
        ≡ opened 3 (complaints number same_text short "data" some_errors) 1 [])
open_retry_never_fails_example =
    open_retry_never_fails number same_text short "data" some_errors 3 []
      (omega arith, λ e. omega arith)
