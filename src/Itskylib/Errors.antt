-- ===== src/Itskylib/Errors.antt =====
-- posix/lib/lib.c: exit_by_type and the handle_error family. What a call does is what it writes
-- and whether it comes back. The lengths of texts are parameters. A text for `syslog`, which takes it
-- for a format, has no percent sign.
pub mod Laws
use sysprogramming_examples.Prelude.{
  ℕ, zero, suc, ◌≡◌, Bool, true, false, ◌+◌, ◌&&◌, ltb, List, [], ◌∷◌, ◌++◌, Option, none, some, ℤ,
  pos, negsuc, is_neg, is_zero, if◌then◌else◌,
}
use Prim.Native.String.{String}

-- An `int` that is no member of the enumeration is possible in C.
pub data ExitType : Type 0 where
  process_exit thread_exit no_exit : ExitType
  unknown_exit_type : ℕ → ExitType

pub data LogType : Type 0 where
  lt_syslog lt_stdout lt_stderr : LogType
  unknown_log_type : ℕ → LogType

-- The text put together by `sprintf`.
pub record ErrorMessage : Type 0 where
  pub msg : Option String
  pub return_code : ℤ
  pub errno : ℤ

pub data Output : Type 0 where
  logged : LogType → ErrorMessage → Output
  continuing : Output
  unknown_type : ℕ → Output

-- Where control is after the call; `overflows` is a `sprintf` beyond the end of its buffer.
pub data Control : Type 0 where
  returned thread_ended overflows : Control
  exited : ℕ → Control

pub record Effect : Type 0 where
  pub outputs : List Output
  pub control : Control

unfoldable pub exit_by_type : ExitType → Effect
exit_by_type process_exit = record { outputs = []; control = exited 1 }
exit_by_type thread_exit = record { outputs = []; control = thread_ended }
exit_by_type no_exit = record { outputs = continuing ∷ []; control = returned }
exit_by_type (unknown_exit_type et) = record { outputs = unknown_type et ∷ []; control = exited 2 }

-- One effect after another that has come back.
abbrev pub before : List Output → Effect → Effect
before out e = record e { outputs = out ++ e.outputs }

abbrev pub message : ℤ → ℤ → Option String → ErrorMessage
message return_code myerrno msg = record { msg = msg; return_code = return_code; errno = myerrno }

-- The `switch (lt)`. In the `default` branch the function calls itself twice with exit type NO_EXIT
-- and log type LT_STDERR; each call writes its message, prints "continuing" and comes back.
unfoldable pub report : (return_code myerrno : ℤ) → (msg : Option String) → LogType → List Output
report return_code myerrno msg lt_syslog = logged lt_syslog (message return_code myerrno msg) ∷ []
report return_code myerrno msg lt_stdout = logged lt_stdout (message return_code myerrno msg) ∷ []
report return_code myerrno msg lt_stderr = logged lt_stderr (message return_code myerrno msg) ∷ []
report return_code myerrno msg (unknown_log_type n) =
    logged lt_stderr (message return_code myerrno msg) ∷ (exit_by_type no_exit).outputs
    ++ logged lt_stderr (message return_code myerrno (some "wrong log_type"))
      ∷ (exit_by_type no_exit).outputs

-- `-abs(retcode)`
unfoldable pub neg_abs : ℤ → ℤ
neg_abs (pos zero) = pos zero
neg_abs (pos (suc n)) = negsuc n
neg_abs (negsuc n) = negsuc n

-- `ERROR_SIZE`
abbrev pub error_size : ℕ
error_size = 4096

-- `strlen`, and the length of what error_msg has behind extra_msg.
pub record Lengths : Type 0 where
  pub strlen : String → ℕ
  pub code_text : (return_code errno : ℤ) → ℕ

module _ (lengths : Lengths) where
  -- The length of `extra_msg`: the message and the end of its line.
  abbrev pub extra_length : Option String → ℕ
  extra_length none = 0
  extra_length (some msg) = lengths.strlen msg + 1

  -- Both texts fit into their buffers, with the 0 at their end.
  abbrev pub fits : (return_code myerrno : ℤ) → (msg : Option String) → Bool
  fits return_code myerrno msg =
      ltb (extra_length msg) error_size
      && ltb (extra_length msg + lengths.code_text return_code myerrno) error_size

  -- So do those of the calls in the `default` branch.
  abbrev pub all_fit : (return_code myerrno : ℤ) → (msg : Option String) → LogType → Bool
  all_fit return_code myerrno msg lt_syslog = fits return_code myerrno msg
  all_fit return_code myerrno msg lt_stdout = fits return_code myerrno msg
  all_fit return_code myerrno msg lt_stderr = fits return_code myerrno msg
  all_fit return_code myerrno msg (unknown_log_type n) =
      fits return_code myerrno msg && fits return_code myerrno (some "wrong log_type")

  unfoldable pub handle_error_myerrno_internal :
      (return_code myerrno : ℤ) → (msg : Option String) → ExitType → LogType → Effect
  unfolding exit_by_type report
  handle_error_myerrno_internal return_code myerrno msg et lt =
      let reported =
        if all_fit return_code myerrno msg lt
        then before (report return_code myerrno msg lt) (exit_by_type et)
        else record { outputs = []; control = overflows } in
      if is_neg return_code then reported else record { outputs = []; control = returned }

  unfoldable pub handle_error_myerrno : ℤ → ℤ → Option String → ExitType → Effect
  handle_error_myerrno return_code myerrno msg et =
      handle_error_myerrno_internal return_code myerrno msg et lt_stdout

  unfoldable pub handle_error_myerrno_syslog : ℤ → ℤ → Option String → ExitType → Effect
  handle_error_myerrno_syslog return_code myerrno msg et =
      handle_error_myerrno_internal return_code myerrno msg et lt_syslog

  unfoldable pub handle_thread_error_internal : ℤ → Option String → ExitType → LogType → Effect
  unfolding neg_abs
  handle_thread_error_internal retcode msg et lt =
      if is_zero retcode
      then record { outputs = []; control = returned }
      else handle_error_myerrno_internal (neg_abs retcode) retcode msg et lt

  unfoldable pub handle_thread_error : ℤ → Option String → ExitType → Effect
  handle_thread_error retcode msg et = handle_thread_error_internal retcode msg et lt_stderr

  unfoldable pub handle_thread_error_syslog : ℤ → Option String → ExitType → Effect
  handle_thread_error_syslog retcode msg et = handle_thread_error_internal retcode msg et lt_syslog

  -- `errno` is the value of the global variable at the call.
  unfoldable pub handle_error_internal :
      (errno : ℤ) → ℤ → Option String → ExitType → LogType → Effect
  handle_error_internal errno return_code msg et lt =
      handle_error_myerrno_internal return_code errno msg et lt

  unfoldable pub handle_error : (errno : ℤ) → ℤ → Option String → ExitType → Effect
  handle_error errno return_code msg et = handle_error_internal errno return_code msg et lt_stdout

  unfoldable pub handle_error_syslog : (errno : ℤ) → ℤ → Option String → ExitType → Effect
  handle_error_syslog errno return_code msg et =
      handle_error_internal errno return_code msg et lt_syslog

  -- A pointer is given by whether it is NULL.
  unfoldable pub handle_ptr_error_internal :
      (errno : ℤ) → (is_null : Bool) → Option String → ExitType → LogType → Effect
  handle_ptr_error_internal errno is_null msg et lt =
      if is_null
      then handle_error_internal errno (negsuc 0) msg et lt
      else record { outputs = []; control = returned }

  unfoldable pub handle_ptr_error :
      (errno : ℤ) → (is_null : Bool) → Option String → ExitType → Effect
  handle_ptr_error errno is_null msg et = handle_ptr_error_internal errno is_null msg et lt_stdout

  unfoldable pub handle_ptr_error_syslog :
      (errno : ℤ) → (is_null : Bool) → Option String → ExitType → Effect
  handle_ptr_error_syslog errno is_null msg et =
      handle_ptr_error_internal errno is_null msg et lt_syslog
