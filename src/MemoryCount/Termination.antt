-- ===== src/MemoryCount/Termination.antt =====
-- The threads come to an end.
use sysprogramming_examples.Prelude.{
  ℕ, zero, suc, ◌+◌, ◌-◌, ◌*◌, ◌≤◌, ◌<◌, ◌≡◌, refl, ap, List, [], ◌∷◌, ◌++◌, arith,
}
use sysprogramming_examples.Memory.{length, get_or, set}
use sysprogramming_examples.MemoryCount.{
  Worker, counting, locked, loaded, stored, waiting, printing, reading, reported, finished, System,
  worker, Step, lock_counter, load_counter, store_counter, unlock_counter, end_of_file, lock_output,
  lock_value, read_value, unlock_value, unlock_output, Reach, begin, step, main_step, start_workers,
  Main, starting, announcing, joining, MainStep, lock_announce, unlock_announce,
}

-- At most so many steps are left to a thread.
abbrev left : Worker → ℕ
left (counting rest) = 4 * length rest + 771
left (locked c rest) = 4 * length rest + 774
left (loaded c val rest) = 4 * length rest + 773
left (stored c rest) = 4 * length rest + 772
left waiting = 770
left (printing i printed) = 3 * (256 - i) + 1
left (reading i printed) = 3 * (255 - i) + 3
left (reported i printed) = 3 * (255 - i) + 2
left (finished printed) = 0

abbrev all_left : List Worker → ℕ
all_left [] = 0
all_left (w ∷ workers) = left w + all_left workers

all_left-set :
    (workers : List Worker) (t : ℕ) (next : Worker)
    → t < length workers
    → all_left (set workers t next) + left (get_or workers t (finished []))
      ≡ all_left workers + left next
all_left-set [] t next h = absurd (omega arith)
all_left-set (w ∷ workers) zero next h = omega arith
all_left-set (w ∷ workers) (suc t) next h = omega (arith, all_left-set workers t next (omega arith))

fewer :
    (s : System) (t : ℕ) (next : Worker)
    → t < length s.workers
    → left next < left (worker s t)
    → all_left (set s.workers t next) < all_left s.workers
fewer s t next h less = omega (arith, all_left-set s.workers t next h)

Step-less :
    (s s' : System) (t : ℕ)
    → t < length s.workers
    → Step s t s'
    → all_left s'.workers < all_left s.workers
Step-less s s' t h (lock_counter {c} {rest} at_ free after) =
    rw after (fewer s t (locked c rest) h (rw at_ (omega arith)))
Step-less s s' t h (load_counter {c} {rest} at_ after) =
    rw after (fewer s t (loaded c (s.counter c) rest) h (rw at_ (omega arith)))
Step-less s s' t h (store_counter {c} {val} {rest} at_ after) =
    rw after (fewer s t (stored c rest) h (rw at_ (omega arith)))
Step-less s s' t h (unlock_counter {c} {rest} at_ after) =
    rw after (fewer s t (counting rest) h (rw at_ (omega arith)))
Step-less s s' t h (end_of_file at_ after) = rw after (fewer s t waiting h (rw at_ (omega arith)))
Step-less s s' t h (lock_output at_ free after) =
    rw after (fewer s t (printing 0 []) h (rw at_ (omega arith)))
Step-less s s' t h (lock_value {i} {printed} at_ below free after) =
    rw after (fewer s t (reading i printed) h (rw at_ (omega arith)))
Step-less s s' t h (read_value {i} {printed} at_ after) =
    rw after (fewer s t (reported i (printed ++ s.counter i ∷ [])) h (rw at_ (omega arith)))
Step-less s s' t h (unlock_value {i} {printed} at_ after) =
    rw after (fewer s t (printing (i + 1) printed) h (rw at_ (omega arith)))
Step-less s s' t h (unlock_output {printed} at_ after) =
    rw after (fewer s t (finished printed) h (rw at_ (omega arith)))

abbrev main_left : Main → ℕ
main_left starting = 2
main_left announcing = 1
main_left joining = 0

-- No step of a thread changes where main is.
same_main : (s s' : System) (t : ℕ) → Step s t s' → s'.main_thread ≡ s.main_thread
same_main s s' t (lock_counter at_ free after) = rw after refl
same_main s s' t (load_counter at_ after) = rw after refl
same_main s s' t (store_counter at_ after) = rw after refl
same_main s s' t (unlock_counter at_ after) = rw after refl
same_main s s' t (end_of_file at_ after) = rw after refl
same_main s s' t (lock_output at_ free after) = rw after refl
same_main s s' t (lock_value at_ below free after) = rw after refl
same_main s s' t (read_value at_ after) = rw after refl
same_main s s' t (unlock_value at_ after) = rw after refl
same_main s s' t (unlock_output at_ after) = rw after refl

MainStep-less :
    (s s' : System)
    → MainStep s s'
    → all_left s'.workers + main_left s'.main_thread < all_left s.workers + main_left s.main_thread
MainStep-less s s' (lock_announce at_ free after) = rw (after, at_) (omega arith)
MainStep-less s s' (unlock_announce at_ after) = rw (after, at_) (omega arith)

-- How many steps the threads and main have taken.
abbrev pub step_count : {files : List (List ℕ)} {s : System} → Reach files s → ℕ
step_count begin = 0
step_count (step t h reached next) = suc (step_count reached)
step_count (main_step reached next) = suc (step_count reached)

steps_bounded :
    (files : List (List ℕ)) (s : System) (reached : Reach files s)
    → step_count reached + (all_left s.workers + main_left s.main_thread)
      ≤ all_left (start_workers files) + 2
steps_bounded files s begin = omega arith
steps_bounded files s' (step {s} t h reached next) = omega (
  arith,
  steps_bounded files s reached,
  Step-less s s' t h next,
  ap main_left (same_main s s' t next),
)
steps_bounded files s' (main_step {s} reached next) =
    omega (arith, steps_bounded files s reached, MainStep-less s s' next)

-- The bytes of all files.
abbrev pub bytes : List (List ℕ) → ℕ
bytes [] = 0
bytes (file ∷ files) = length file + bytes files

start_left :
    (files : List (List ℕ)) → all_left (start_workers files) ≡ 4 * bytes files + 771 * length files
start_left [] = refl
start_left (file ∷ files) = omega (arith, start_left files)

-- Neither a thread nor main runs for ever: in whatever order the threads and main take their steps, all
-- of them together take at most four steps for each byte of the files, 771 for each file and the two of
-- main's message.
pub step_count_bounded :
    (files : List (List ℕ)) (s : System) (reached : Reach files s)
    → step_count reached ≤ 4 * bytes files + 771 * length files + 2
step_count_bounded files s reached = omega (arith, steps_bounded files s reached, start_left files)
