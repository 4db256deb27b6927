-- ===== src/MemoryCount/Laws.antt =====
-- No byte is lost, in whatever order the threads take their steps.
use sysprogramming_examples.Prelude.{
  ℕ, zero, suc, ◌+◌, ◌≡◌, ◌≢◌, refl, sym, ap, ◌∙◌, List, [], ◌∷◌, none, some, arith,
}
use sysprogramming_examples.Memory.{get_or}
use sysprogramming_examples.MemoryCount.{
  Worker, counting, locked, loaded, stored, waiting, printing, reading, reported, finished, System,
  worker, Reach, begin, step, main_step, start, start_workers, occurrences, total,
}
use sysprogramming_examples.MemoryCount.Invariant.{held, pending, all_pending, IsCurrent, IsSound}
use sysprogramming_examples.MemoryCount.Steps.{Step-IsSound, MainStep-IsSound}

-- A thread that has counted its whole file.
abbrev pub HasCounted : Worker → Type 0
HasCounted (counting rest) = ⊥
HasCounted (locked c rest) = ⊥
HasCounted (loaded c val rest) = ⊥
HasCounted (stored c rest) = ⊥
HasCounted waiting = Unit
HasCounted (printing i printed) = Unit
HasCounted (reading i printed) = Unit
HasCounted (reported i printed) = Unit
HasCounted (finished printed) = Unit

start-held : (files : List (List ℕ)) (t : ℕ) → held (worker (start files) t) ≡ none
start-held [] t = refl
start-held (file ∷ files) zero = refl
start-held (file ∷ files) (suc t) = start-held files t

start-IsCurrent : (files : List (List ℕ)) (t : ℕ) → IsCurrent (λ c. 0) (worker (start files) t)
start-IsCurrent [] t = tt
start-IsCurrent (file ∷ files) zero = tt
start-IsCurrent (file ∷ files) (suc t) = start-IsCurrent files t

start-pending :
    (files : List (List ℕ)) (c : ℕ) → all_pending c (start_workers files) ≡ total c files
start-pending [] c = refl
start-pending (file ∷ files) c = ap (λ n. occurrences c file + n) (start-pending files c)

none_held : {c : ℕ} → none ≡ some c → ⊥
none_held e = absurd cc

pub Reach-IsSound : (files : List (List ℕ)) (s : System) → Reach files s → IsSound files s
Reach-IsSound files s begin = record {
  owned = λ t c e. absurd (none_held (sym (start-held files t) ∙ e));
  current = start-IsCurrent files;
  counted = λ c. omega (arith, start-pending files c);
}
Reach-IsSound files s' (step {s} t h reached next) =
    Step-IsSound files s s' t h (Reach-IsSound files s reached) next
Reach-IsSound files s' (main_step {s} reached next) =
    MainStep-IsSound files s s' (Reach-IsSound files s reached) next

no_pending : (c : ℕ) (w : Worker) → HasCounted w → pending c w ≡ 0
no_pending c (counting rest) h = absurd h
no_pending c (locked d rest) h = absurd h
no_pending c (loaded d val rest) h = absurd h
no_pending c (stored d rest) h = absurd h
no_pending c waiting h = refl
no_pending c (printing i printed) h = refl
no_pending c (reading i printed) h = refl
no_pending c (reported i printed) h = refl
no_pending c (finished printed) h = refl

nothing_pending :
    (c : ℕ) (workers : List Worker)
    → ((t : ℕ) → HasCounted (get_or workers t (finished [])))
    → all_pending c workers ≡ 0
nothing_pending c [] h = refl
nothing_pending c (w ∷ workers) h =
    omega (arith, no_pending c w (h 0), nothing_pending c workers (λ t. h (suc t)))

-- At no time two threads have the mutex of the same counter: they do not read and write it at once.
pub mutual_exclusion :
    (files : List (List ℕ)) (s : System) (t u c : ℕ)
    → Reach files s
    → t ≢ u
    → held (worker s t) ≡ some c
    → held (worker s u) ≢ some c
mutual_exclusion files s t u c reached different mine theirs =
    let sound = Reach-IsSound files s reached in
    let clash : some t ≡ some u = sym (sound.owned t c mine) ∙ sound.owned u c theirs in
    different cc

-- When all threads have counted their files, in whatever order their steps came, each counter has the
-- number of times its byte occurs in all the files: no increment is lost.
pub counts_exact :
    (files : List (List ℕ)) (s : System) (c : ℕ)
    → Reach files s
    → ((t : ℕ) → HasCounted (worker s t))
    → s.counter c ≡ total c files
counts_exact files s c reached all =
    let sound = Reach-IsSound files s reached in
    omega (arith, sound.counted c, nothing_pending c s.workers all)
