-- ===== src/Tests/Counting.antt =====
-- Two threads that count the same byte.
use sysprogramming_examples.Prelude.{
  ℕ, zero, suc, ◌+◌, ◌*◌, ◌≤◌, ◌≡◌, ◌≢◌, refl, inl, List, [], ◌∷◌, none, some, arith,
}
use sysprogramming_examples.Memory.{length}
use sysprogramming_examples.MemoryCount.{
  System, counting, locked, waiting, worker, Reach, begin, step, main_step, lock_announce, starting,
  announcing, total, lock_counter, load_counter, store_counter, unlock_counter, end_of_file, update,
}
use sysprogramming_examples.MemoryCount.Invariant.{held}
use sysprogramming_examples.MemoryCount.Termination.{step_count, bytes, step_count_bounded}
use sysprogramming_examples.MemoryCount.Progress.{CanStep, no_deadlock}
use sysprogramming_examples.MemoryCount.Laws.{HasCounted, mutual_exclusion, counts_exact}

abbrev files : List (List ℕ)
files = (97 ∷ []) ∷ (97 ∷ []) ∷ []

-- Thread 1 has the mutex of the byte's counter.
abbrev one_locked : System
one_locked = record {
  counter = λ c. 0;
  owner = update (λ c. none) 97 (some 1);
  output_owner = none;
  main_thread = starting;
  workers = counting (97 ∷ []) ∷ locked 97 [] ∷ [];
}

Reach-one_locked : Reach files one_locked
Reach-one_locked = step 1 (omega arith) begin (lock_counter refl refl refl)

abbrev all_counted : System
all_counted = record {
  counter = update (update (λ c. 0) 97 1) 97 2;
  owner = update (update (update (update (λ c. none) 97 (some 1)) 97 none) 97 (some 0)) 97 none;
  output_owner = none;
  main_thread = starting;
  workers = waiting ∷ waiting ∷ [];
}

Reach-all_counted : Reach files all_counted
Reach-all_counted =
    let stored_one =
      step 1 (omega arith) (step 1 (omega arith) Reach-one_locked (load_counter refl refl))
        (store_counter refl refl) in
    let locked_zero =
      step 0 (omega arith) (step 1 (omega arith) stored_one (unlock_counter refl refl))
        (lock_counter refl refl refl) in
    let read_one = step 1 (omega arith) locked_zero (end_of_file refl refl) in
    let stored_zero =
      step 0 (omega arith) (step 0 (omega arith) read_one (load_counter refl refl))
        (store_counter refl refl) in
    step 0 (omega arith) (step 0 (omega arith) stored_zero (unlock_counter refl refl))
      (end_of_file refl refl)

mutual_exclusion_example : held (worker one_locked 0) ≢ some 97
mutual_exclusion_example =
    mutual_exclusion files one_locked 1 0 97 Reach-one_locked (λ e. absurd (omega arith)) refl

all-HasCounted : (t : ℕ) → HasCounted (worker all_counted t)
all-HasCounted zero = tt
all-HasCounted (suc zero) = tt
all-HasCounted (suc (suc t)) = tt

counts_exact_example : all_counted.counter 97 ≡ total 97 files
counts_exact_example = counts_exact files all_counted 97 Reach-all_counted all-HasCounted

step_count_bounded_example : step_count Reach-one_locked ≤ 4 * bytes files + 771 * length files + 2
step_count_bounded_example = step_count_bounded files one_locked Reach-one_locked

-- Main has the mutex of the output, for which thread 0 waits.
abbrev announced : System
announced = record {
  counter = λ c. 0;
  owner = λ c. none;
  output_owner = some 1;
  main_thread = announcing;
  workers = waiting ∷ [];
}

Reach-announced : Reach ([] ∷ []) announced
Reach-announced =
    step 0 (omega arith) (main_step begin (lock_announce refl refl refl)) (end_of_file refl refl)

no_deadlock_example : CanStep announced
no_deadlock_example = no_deadlock ([] ∷ []) announced Reach-announced (inl (0, omega arith, tt))
