-- ===== src/Itskylib/Errors/Laws.antt =====
-- When the error handlers come back, and what they report.
use sysprogramming_examples.Prelude.{
  zero, suc, ◌+◌, ◌<◌, ◌≡◌, refl, true, false, some, arith, lt→ltb, Option, ℤ, pos, negsuc, is_neg,
  ◌≢◌, ◌↔◌, ◌⊎◌, inl, inr,
}
use Prim.Native.String.{String}
use sysprogramming_examples.Itskylib.Errors.{
  ExitType, process_exit, thread_exit, no_exit, unknown_exit_type, LogType, returned, exit_by_type,
  before, report, handle_error_myerrno_internal, handle_error_internal,
  handle_thread_error_internal, neg_abs, Lengths, extra_length, fits, all_fit, error_size,
  lt_syslog, lt_stdout, lt_stderr, unknown_log_type,
}

exit_by_type-returns : (et : ExitType) → (exit_by_type et).control ≡ returned → et ≡ no_exit
unfolding exit_by_type
exit_by_type-returns process_exit e = cc
exit_by_type-returns thread_exit e = cc
exit_by_type-returns no_exit e = refl
exit_by_type-returns (unknown_exit_type n) e = cc

exit_by_type-no_exit : (et : ExitType) → et ≡ no_exit → (exit_by_type et).control ≡ returned
unfolding exit_by_type
exit_by_type-no_exit process_exit e = cc
exit_by_type-no_exit thread_exit e = cc
exit_by_type-no_exit no_exit e = refl
exit_by_type-no_exit (unknown_exit_type n) e = cc

-- Room for a message and for the one about a wrong log type.
abbrev pub HasRoom : Lengths → (return_code errno : ℤ) → Option String → Type 0
HasRoom lengths return_code errno msg =
    (extra_length lengths msg + lengths.code_text return_code errno < error_size)
    × (extra_length lengths (some "wrong log_type") + lengths.code_text return_code errno
        < error_size)

fits-true :
    (lengths : Lengths) (return_code errno : ℤ) (msg : Option String)
    → extra_length lengths msg + lengths.code_text return_code errno < error_size
    → fits lengths return_code errno msg ≡ true
fits-true lengths return_code errno msg h = rw (
  lt→ltb (extra_length lengths msg) 4096 (omega arith),
  lt→ltb (extra_length lengths msg + lengths.code_text return_code errno) 4096 h,
)

pub all_fit-true :
    (lengths : Lengths) (return_code errno : ℤ) (msg : Option String) (lt : LogType)
    → HasRoom lengths return_code errno msg
    → all_fit lengths return_code errno msg lt ≡ true
all_fit-true lengths return_code errno msg lt_syslog h = fits-true lengths return_code errno msg h.0
all_fit-true lengths return_code errno msg lt_stdout h = fits-true lengths return_code errno msg h.0
all_fit-true lengths return_code errno msg lt_stderr h = fits-true lengths return_code errno msg h.0
all_fit-true lengths return_code errno msg (unknown_log_type n) h = rw (
  fits-true lengths return_code errno msg h.0,
  fits-true lengths return_code errno (some "wrong log_type") h.1,
)

-- Whatever the log type, the handler comes back exactly if the result is no error or the exit type
-- is NO_EXIT, where the message and the one about a wrong log type fit into the buffers of 4096 bytes
-- with what follows them.
pub handle_error_returns :
    (lengths : Lengths) (errno return_code : ℤ) (msg : Option String) (et : ExitType) (lt : LogType)
    → HasRoom lengths return_code errno msg
    → (handle_error_internal lengths errno return_code msg et lt).control ≡ returned
      ↔ (is_neg return_code ≡ false) ⊎ (et ≡ no_exit)
unfolding handle_error_internal handle_error_myerrno_internal
handle_error_returns lengths errno (pos n) msg et lt h = (λ _. inl refl, λ _. refl)
handle_error_returns lengths errno (negsuc n) msg et lt h =
    rw (all_fit-true lengths (negsuc n) errno msg lt h) (
      λ e. inr (exit_by_type-returns et e),
      elim [ inl e ↦ cc | inr e ↦ exit_by_type-no_exit et e ],
    )

-- The handler for the results of the pthread functions takes any number but 0 for an error, of
-- either sign: it reports the number as the error number, and then does what the exit type says. The
-- messages fit into the buffers.
pub thread_error_reported :
    (lengths : Lengths) (retcode : ℤ) (msg : Option String) (et : ExitType) (lt : LogType)
    → retcode ≢ pos 0
    → HasRoom lengths (neg_abs retcode) retcode msg
    → handle_thread_error_internal lengths retcode msg et lt
      ≡ before (report (neg_abs retcode) retcode msg lt) (exit_by_type et)
unfolding handle_thread_error_internal handle_error_myerrno_internal neg_abs
thread_error_reported lengths (pos zero) msg et lt h room = absurd (h refl)
thread_error_reported lengths (pos (suc n)) msg et lt h room =
    rw (all_fit-true lengths (negsuc n) (pos (suc n)) msg lt room) refl
thread_error_reported lengths (negsuc n) msg et lt h room =
    rw (all_fit-true lengths (negsuc n) (negsuc n) msg lt room) refl
