-- ===== src/Itskylib/Files/Laws.antt =====
-- How often open_retry tries.
use mathlib.Core.List.{append-nil, append_assoc}
use sysprogramming_examples.Prelude.{
  ℕ, zero, suc, ◌+◌, ◌<◌, ◌≡◌, refl, sym, ap, ◌∙◌, true, false, List, [], ◌∷◌, ◌++◌, some, ℤ,
  negsuc, arith, lt→ltb, map,
}
use Prim.Native.String.{String}
use sysprogramming_examples.Posix.{Errno, eintr, emfile, enoent, other_errno}
use sysprogramming_examples.Itskylib.Errors.{
  ExitType, no_exit, Output, logged, continuing, lt_stdout, message, Lengths, fits, error_size,
  returned, exit_by_type, report, handle_error, handle_error_internal,
  handle_error_myerrno_internal,
}
use sysprogramming_examples.Itskylib.Files.{
  OpenEvent, OpenEnd, is_emfile, opens, refuses, opened, waiting, open_message, msg_size,
  open_retry_loop, open_retry,
}

module _ (errno_number : Errno → ℤ) (sprintf : (format file : String) → String) (lengths : Lengths)
    (file : String) where
  -- The message about the file fits into its buffer, and with what follows it into those of the error
  -- handler.
  abbrev pub AllFit : Type 0
  AllFit =
      (lengths.strlen (open_message errno_number sprintf lengths file) < msg_size)
      × ((e : Errno)
          → lengths.strlen (open_message errno_number sprintf lengths file)
              + 1
              + lengths.code_text (negsuc 0) (errno_number e)
            < error_size)

  -- What is written about a call that fails, with exit type NO_EXIT.
  abbrev pub complaint : Errno → List Output
  complaint e =
      let text = some (open_message errno_number sprintf lengths file) in
      logged lt_stdout (message (negsuc 0) (errno_number e) text) ∷ continuing ∷ []

  -- Nothing is written where there are too many open files.
  abbrev pub complaints : List Errno → List Output
  complaints [] = []
  complaints (emfile ∷ errors) = complaints errors
  complaints (eintr ∷ errors) = complaint eintr ++ complaints errors
  complaints (enoent ∷ errors) = complaint enoent ++ complaints errors
  complaints (other_errno n ∷ errors) = complaint (other_errno n) ++ complaints errors

  -- How often there are too many open files.
  abbrev pub shortages : List Errno → ℕ
  shortages [] = 0
  shortages (emfile ∷ errors) = suc (shortages errors)
  shortages (eintr ∷ errors) = shortages errors
  shortages (enoent ∷ errors) = shortages errors
  shortages (other_errno n ∷ errors) = shortages errors

  abbrev loop : List OpenEvent → List Output → ℕ → OpenEnd
  loop events out sleeps =
      open_retry_loop errno_number sprintf lengths events file no_exit out sleeps

  room :
      (e : Errno)
      → AllFit
      → fits lengths
          (negsuc 0)
          (errno_number e)
          (some (open_message errno_number sprintf lengths file))
        ≡ true
  room e h =
      let size = lengths.strlen (open_message errno_number sprintf lengths file) in
      rw (
        lt→ltb (size + 1) 4096 (omega (arith, h.0)),
        lt→ltb (size + 1 + lengths.code_text (negsuc 0) (errno_number e)) 4096 (h.1 e),
      )

  complains :
      (e : Errno)
      → AllFit
      → handle_error lengths
          (errno_number e)
          (negsuc 0)
          (some (open_message errno_number sprintf lengths file))
          no_exit
        ≡ record { outputs = complaint e; control = returned }
  unfolding handle_error exit_by_type handle_error_internal handle_error_myerrno_internal report
  complains e h = rw (room e h) refl

  tries_again :
      (e : Errno) (events : List OpenEvent) (out : List Output) (sleeps : ℕ)
      → AllFit
      → is_emfile e ≡ false
      → loop (refuses e ∷ events) out sleeps ≡ loop events (out ++ complaint e) sleeps
  unfolding open_retry_loop
  tries_again e events out sleeps h other = rw (
    other,
    lt→ltb (lengths.strlen (open_message errno_number sprintf lengths file)) 1024 (h.0),
    complains e h,
    complains e h,
  )

  after_errors :
      (errors : List Errno) (events : List OpenEvent) (out : List Output) (sleeps : ℕ)
      → AllFit
      → loop (map refuses errors ++ events) out sleeps
        ≡ loop events (out ++ complaints errors) (sleeps + shortages errors)
  unfolding open_retry_loop
  after_errors [] events out sleeps h =
      ap (λ o. loop events o sleeps) (sym (append-nil out))
      ∙ ap (λ k. loop events (out ++ []) k) (omega arith)
  after_errors (emfile ∷ errors) events out sleeps h =
      after_errors errors events out (suc sleeps) h
      ∙ ap (λ k. loop events (out ++ complaints errors) k) (omega arith)
  after_errors (eintr ∷ errors) events out sleeps h =
      tries_again eintr (map refuses errors ++ events) out sleeps h refl
      ∙ after_errors errors events (out ++ complaint eintr) sleeps h
      ∙ ap (λ o. loop events o (sleeps + shortages errors))
          (append_assoc out (complaint eintr) (complaints errors))
  after_errors (enoent ∷ errors) events out sleeps h =
      tries_again enoent (map refuses errors ++ events) out sleeps h refl
      ∙ after_errors errors events (out ++ complaint enoent) sleeps h
      ∙ ap (λ o. loop events o (sleeps + shortages errors))
          (append_assoc out (complaint enoent) (complaints errors))
  after_errors (other_errno n ∷ errors) events out sleeps h =
      tries_again (other_errno n) (map refuses errors ++ events) out sleeps h refl
      ∙ after_errors errors events (out ++ complaint (other_errno n)) sleeps h
      ∙ ap (λ o. loop events o (sleeps + shortages errors))
          (append_assoc out (complaint (other_errno n)) (complaints errors))

  -- With exit type NO_EXIT, open_retry never gives back -1: whatever errors `open` has had, one after
  -- the other, it has not returned as long as there has been no other answer, and at the first
  -- descriptor it returns that; it has slept once for each time that there were too many open files and
  -- has written a message about each other error. The message fits into its buffers.
  pub open_retry_never_fails :
      (errors : List Errno) (fd : ℕ) (events : List OpenEvent)
      → AllFit
      → (open_retry errno_number sprintf lengths (map refuses errors) file no_exit ≡ waiting)
        × (open_retry errno_number sprintf lengths
              (map refuses errors ++ opens fd ∷ events)
              file
              no_exit
            ≡ opened fd (complaints errors) (shortages errors) events)
  unfolding open_retry open_retry_loop
  open_retry_never_fails errors fd events h = (
    ap (λ l. loop l [] 0) (sym (append-nil (map refuses errors))) ∙ after_errors errors [] [] 0 h,
    after_errors errors (opens fd ∷ events) [] 0 h
        ∙ ap (λ k. opened fd (complaints errors) k events) (omega arith),
  )

module _ (errno_number : Errno → ℤ) (sprintf : (format file : String) → String)
    (lengths : Lengths) where
  -- `n` times too many open files.
  abbrev pub refused : ℕ → List OpenEvent → List OpenEvent
  refused zero events = events
  refused (suc n) events = refuses emfile ∷ refused n events

  sleeping :
      (n : ℕ) (events : List OpenEvent) (file : String) (et : ExitType) (out : List Output)
      (sleeps : ℕ)
      → open_retry_loop errno_number sprintf lengths (refused n events) file et out sleeps
        ≡ open_retry_loop errno_number sprintf lengths events file et out (sleeps + n)
  unfolding open_retry_loop
  sleeping zero events file et out sleeps =
      ap (λ k. open_retry_loop errno_number sprintf lengths events file et out k) (omega arith)
  sleeping (suc n) events file et out sleeps =
      sleeping n events file et out (suc sleeps)
      ∙ ap (λ k. open_retry_loop errno_number sprintf lengths events file et out k) (omega arith)

  -- However often there are too many open files, open_retry sleeps each time and then returns the
  -- descriptor that it gets, without a message and whatever the exit type.
  pub open_retry-emfile :
      (n fd : ℕ) (events : List OpenEvent) (file : String) (et : ExitType)
      → open_retry errno_number sprintf lengths (refused n (opens fd ∷ events)) file et
        ≡ opened fd [] n events
  unfolding open_retry open_retry_loop
  open_retry-emfile n fd events file et =
      sleeping n (opens fd ∷ events) file et [] 0 ∙ ap (λ k. opened fd [] k events) (omega arith)
