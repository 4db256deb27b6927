-- ===== src/MemoryCount/Invariant.antt =====
-- What holds between any two steps of the threads that count.
use sysprogramming_examples.Prelude.{ℕ, ◌+◌, ◌≡◌, List, [], ◌∷◌, Option, none, some}
use sysprogramming_examples.MemoryCount.{
  Worker, counting, locked, loaded, stored, waiting, printing, reading, reported, finished, System,
  worker, occurrences, total,
}

-- The counter whose mutex a thread has.
abbrev pub held : Worker → Option ℕ
held (counting rest) = none
held (locked c rest) = some c
held (loaded c val rest) = some c
held (stored c rest) = some c
held waiting = none
held (printing i printed) = none
held (reading i printed) = some i
held (reported i printed) = some i
held (finished printed) = none

-- How often `c` is still to be counted by a thread.
abbrev pub pending : (c : ℕ) → Worker → ℕ
pending c (counting rest) = occurrences c rest
pending c (locked d rest) = occurrences c (d ∷ rest)
pending c (loaded d val rest) = occurrences c (d ∷ rest)
pending c (stored d rest) = occurrences c rest
pending c waiting = 0
pending c (printing i printed) = 0
pending c (reading i printed) = 0
pending c (reported i printed) = 0
pending c (finished printed) = 0

abbrev pub all_pending : (c : ℕ) → List Worker → ℕ
all_pending c [] = 0
all_pending c (w ∷ workers) = pending c w + all_pending c workers

-- The value that a thread has read and not yet written back is that of the counter.
abbrev pub IsCurrent : (counter : ℕ → ℕ) → Worker → Type 0
IsCurrent counter (counting rest) = Unit
IsCurrent counter (locked c rest) = Unit
IsCurrent counter (loaded c val rest) = counter c ≡ val
IsCurrent counter (stored c rest) = Unit
IsCurrent counter waiting = Unit
IsCurrent counter (printing i printed) = Unit
IsCurrent counter (reading i printed) = Unit
IsCurrent counter (reported i printed) = Unit
IsCurrent counter (finished printed) = Unit

pub record IsSound (files : List (List ℕ)) (s : System) : Type 0 where
  pub owned : (t c : ℕ) → held (worker s t) ≡ some c → s.owner c ≡ some t
  pub current : (t : ℕ) → IsCurrent s.counter (worker s t)
  pub counted : (c : ℕ) → s.counter c + all_pending c s.workers ≡ total c files
