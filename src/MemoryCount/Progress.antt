-- ===== src/MemoryCount/Progress.antt =====
-- The threads do not block one another for ever.
use native.Mathlib.Decide.{dec_lt}
use sysprogramming_examples.Prelude.{
  ℕ, ◌≤◌, ◌<◌, ◌≡◌, ◌≢◌, ◌⊎◌, inl, inr, refl, ap, ◌∙◌, List, [], ◌∷◌, Option, none, some, arith,
}
use sysprogramming_examples.Memory.{length}
use sysprogramming_examples.MemoryCount.{
  Worker, counting, locked, loaded, stored, waiting, printing, reading, reported, finished, System,
  worker, Step, lock_counter, load_counter, store_counter, unlock_counter, end_of_file, lock_output,
  lock_value, read_value, unlock_value, unlock_output, alpha_size, Reach, Main, starting,
  announcing, joining, MainStep, lock_announce, unlock_announce,
}
use sysprogramming_examples.MemoryCount.Invariant.{held}
use sysprogramming_examples.MemoryCount.Holders.{InOutput, IsHeld, Reach-IsHeld}

-- A thread that has not come to its end.
abbrev pub IsActive : Worker → Type 0
IsActive (counting rest) = Unit
IsActive (locked c rest) = Unit
IsActive (loaded c val rest) = Unit
IsActive (stored c rest) = Unit
IsActive waiting = Unit
IsActive (printing i printed) = Unit
IsActive (reading i printed) = Unit
IsActive (reported i printed) = Unit
IsActive (finished printed) = ⊥

-- Some thread can take a step, or main can.
abbrev pub CanStep : System → Type 0
CanStep s =
    ((u : ℕ) × (u < length s.workers) × (s' : System) × Step s u s')
    ⊎ ((s' : System) × MainStep s s')

-- A thread has not come to its end, or main has not given its message.
abbrev pub IsUnfinished : System → Type 0
IsUnfinished s =
    ((t : ℕ) × (t < length s.workers) × IsActive (worker s t)) ⊎ (s.main_thread ≢ joining)

module _ (s : System) (k : IsHeld s) where
  -- Who has the mutex of a counter never waits.
  holder_steps :
      (u c : ℕ) (w : Worker) → u < length s.workers → worker s u ≡ w → held w ≡ some c → CanStep s
  holder_steps u c (counting rest) hu at_ e = absurd cc
  holder_steps u c (locked d rest) hu at_ e = inl (u, hu, _, load_counter at_ refl)
  holder_steps u c (loaded d val rest) hu at_ e = inl (u, hu, _, store_counter at_ refl)
  holder_steps u c (stored d rest) hu at_ e = inl (u, hu, _, unlock_counter at_ refl)
  holder_steps u c waiting hu at_ e = absurd cc
  holder_steps u c (printing i printed) hu at_ e = absurd cc
  holder_steps u c (reading i printed) hu at_ e = inl (u, hu, _, read_value at_ refl)
  holder_steps u c (reported i printed) hu at_ e = inl (u, hu, _, unlock_value at_ refl)
  holder_steps u c (finished printed) hu at_ e = absurd cc

  owner_steps : (u c : ℕ) → s.owner c ≡ some u → CanStep s
  owner_steps u c e = let mine = k.holder c u e in holder_steps u c (worker s u) mine.0 refl mine.1

  counting_steps :
      (u c : ℕ) (rest : List ℕ) (who : Option ℕ)
      → u < length s.workers
      → worker s u ≡ counting (c ∷ rest)
      → s.owner c ≡ who
      → CanStep s
  counting_steps u c rest none hu at_ free = inl (u, hu, _, lock_counter at_ free refl)
  counting_steps u c rest (some v) hu at_ taken = owner_steps v c taken

  value_steps :
      (u i : ℕ) (printed : List ℕ) (who : Option ℕ)
      → u < length s.workers
      → worker s u ≡ printing i printed
      → i < alpha_size
      → s.owner i ≡ who
      → CanStep s
  value_steps u i printed none hu at_ below free = inl (u, hu, _, lock_value at_ below free refl)
  value_steps u i printed (some v) hu at_ below taken = owner_steps v i taken

  printing_steps :
      (u i : ℕ) (printed : List ℕ)
      → u < length s.workers
      → worker s u ≡ printing i printed
      → CanStep s
  printing_steps u i printed hu at_ =
      let most : i ≤ alpha_size = rw at_ at (k.within u) in
      elim (dec_lt i alpha_size) [
        | yes below ↦ value_steps u i printed (s.owner i) hu at_ below refl
        | no end ↦
            let last : i ≡ alpha_size = omega arith in
            inl (u, hu, _, unlock_output (at_ ∙ ap (λ n. printing n printed) last) refl)
      ]

  output_steps :
      (u : ℕ) (w : Worker) → u < length s.workers → worker s u ≡ w → InOutput w → CanStep s
  output_steps u (counting rest) hu at_ o = absurd o
  output_steps u (locked c rest) hu at_ o = absurd o
  output_steps u (loaded c val rest) hu at_ o = absurd o
  output_steps u (stored c rest) hu at_ o = absurd o
  output_steps u waiting hu at_ o = absurd o
  output_steps u (printing i printed) hu at_ o = printing_steps u i printed hu at_
  output_steps u (reading i printed) hu at_ o = inl (u, hu, _, read_value at_ refl)
  output_steps u (reported i printed) hu at_ o = inl (u, hu, _, unlock_value at_ refl)
  output_steps u (finished printed) hu at_ o = absurd o

  -- Who has the mutex of the output can go on, or waits for somebody who can.
  taken_steps : (v : ℕ) → s.output_owner ≡ some v → CanStep s
  taken_steps v taken = elim (k.output_holder v taken) [
    | inl theirs ↦ output_steps v (worker s v) theirs.0 refl theirs.1
    | inr main ↦ inr (_, unlock_announce main.1 refl)
  ]

  waiting_steps :
      (u : ℕ) (who : Option ℕ)
      → u < length s.workers
      → worker s u ≡ waiting
      → s.output_owner ≡ who
      → CanStep s
  waiting_steps u none hu at_ free = inl (u, hu, _, lock_output at_ free refl)
  waiting_steps u (some v) hu at_ taken = taken_steps v taken

  main_steps :
      (m : Main) (who : Option ℕ)
      → s.main_thread ≡ m
      → m ≢ joining
      → s.output_owner ≡ who
      → CanStep s
  main_steps starting none at_ before free = inr (_, lock_announce at_ free refl)
  main_steps starting (some v) at_ before taken = taken_steps v taken
  main_steps announcing who at_ before e = inr (_, unlock_announce at_ refl)
  main_steps joining who at_ before e = absurd (before refl)

  active_steps :
      (u : ℕ) (w : Worker) → u < length s.workers → worker s u ≡ w → IsActive w → CanStep s
  active_steps u (counting []) hu at_ a = inl (u, hu, _, end_of_file at_ refl)
  active_steps u (counting (c ∷ rest)) hu at_ a = counting_steps u c rest (s.owner c) hu at_ refl
  active_steps u (locked c rest) hu at_ a = inl (u, hu, _, load_counter at_ refl)
  active_steps u (loaded c val rest) hu at_ a = inl (u, hu, _, store_counter at_ refl)
  active_steps u (stored c rest) hu at_ a = inl (u, hu, _, unlock_counter at_ refl)
  active_steps u waiting hu at_ a = waiting_steps u s.output_owner hu at_ refl
  active_steps u (printing i printed) hu at_ a = printing_steps u i printed hu at_
  active_steps u (reading i printed) hu at_ a = inl (u, hu, _, read_value at_ refl)
  active_steps u (reported i printed) hu at_ a = inl (u, hu, _, unlock_value at_ refl)
  active_steps u (finished printed) hu at_ a = absurd a

-- There is no deadlock: in any state that main and the threads get to, if a thread has not come to its
-- end or main has not given its message, one of them can take a step, though a thread that prints waits
-- for the mutexes of the counters while it has that of the output, which main takes, too.
pub no_deadlock : (files : List (List ℕ)) (s : System) → Reach files s → IsUnfinished s → CanStep s
no_deadlock files s reached unfinished =
    let k = Reach-IsHeld files s reached in
    elim unfinished [
      | inl w ↦ active_steps s k (w.0) (worker s (w.0)) (w.1) refl (w.2)
      | inr main ↦ main_steps s k s.main_thread s.output_owner refl main refl
    ]
