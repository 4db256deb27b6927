-- ===== src/Tests/Daemons.antt =====
-- The daemon with a client, and its lock file.
use sysprogramming_examples.Prelude.{
  ℕ, zero, suc, ◌-◌, ◌≡◌, refl, ap, List, [], ◌∷◌, ◌++◌, map, ℤ, pos, arith,
}
use sysprogramming_examples.Memory.{length}
use sysprogramming_examples.Posix.{Event, transfer}
use sysprogramming_examples.TransmissionProtocols.{Outcome}
use sysprogramming_examples.Daemon.Square.{Texts, Turn, handle_tcp_client}
use sysprogramming_examples.Daemon.Answers.{AreServed, frame, frames, reply, handle_tcp_client_lem}
use sysprogramming_examples.Daemon.LockFile.{
  World, kill_succeeds, no_such_process, LockFile, missing,
}

-- `atoi` for numbers of one digit.
abbrev one_digit : List ℕ → ℤ
one_digit [] = pos 0
one_digit (c ∷ text) = pos (c - 48)

-- Numbers of one digit and answers of one byte.
abbrev texts : Texts
texts = record { atoi = one_digit; format = λ n. n ∷ [] }

abbrev filled : ℕ → List ℕ
filled zero = []
filled (suc n) = 9 ∷ filled n

length-filled : (n : ℕ) → length (filled n) ≡ n
length-filled zero = refl
length-filled (suc n) = ap suc (length-filled n)

abbrev events : List Event
events = transfer 3 ∷ transfer 0 ∷ transfer 0 ∷ []

abbrev turns : List Turn
turns = record { reads = events; writes = events } ∷ record { reads = events; writes = events } ∷ []

-- "7"
abbrev strings : List (List ℕ)
strings = (55 ∷ []) ∷ []

strings-AreServed : AreServed texts strings turns
strings-AreServed = (
  (omega arith, omega arith, omega arith, omega arith),
  (omega arith, tt, omega arith),
  (omega arith, tt, omega arith),
  ((omega arith, tt, omega arith), (omega arith, tt, omega arith)),
)

handle_tcp_client_lem_example :
    (left : List Event) × (handle_tcp_client turns texts filled
        (frames strings ++ (frame [] ++ []))
        []
      ≡ Outcome.done ([] ++ (frames (map (reply texts) strings) ++ frame [])) left)
handle_tcp_client_lem_example =
    handle_tcp_client_lem texts filled strings turns [] [] length-filled strings-AreServed

abbrev there : World
there = record { kill = λ pid. kill_succeeds; unlink = λ f. missing }

abbrev gone : World
gone = record { kill = λ pid. no_such_process; unlink = λ f. missing }
