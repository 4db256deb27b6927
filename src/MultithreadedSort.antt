-- ===== src/MultithreadedSort.antt =====
-- posix/threads/multithreaded-sort.c: the rounds in which threads merge their sorted segments. A
-- segment is the list of its strings; NULL with length 0 is the empty list, and `left + i` is the
-- list of the strings from there on. Numbers of threads and strings are far below 2^31.
pub mod Laws
pub mod Rounds
pub mod Program
pub mod Output
use sysprogramming_examples.Prelude.{
  ℕ, zero, suc, ◌+◌, ◌*◌, ◌%◌, ◌==◌, ◌&&◌, true, false, List, [], ◌∷◌, ltb, is_nonpos,
  if◌then◌else◌,
}
use sysprogramming_examples.Prelude.Run.{Run, ok, no_fuel}
use sysprogramming_examples.Memory.{get_or, set}
use sysprogramming_examples.SortCommon.{strcmp}

-- `while (i+j < total_len)`: the strings that it writes, from left + i and right + j on.
unfoldable pub merge_strings : (left right : List (List ℕ)) → List (List ℕ)
merge_strings [] right = right
merge_strings (x ∷ left) [] = x ∷ left
merge_strings (x ∷ left) (y ∷ right) = elim (is_nonpos (strcmp x y)) [
  | true ↦ x ∷ merge_strings left (y ∷ right)
  | false ↦ y ∷ merge_strings (x ∷ left) right
]

-- What thread `idx` does behind the barrier.
unfoldable pub merge_thread :
    (thread_count step idx : ℕ) → List (List (List ℕ)) → List (List (List ℕ))
merge_thread thread_count step idx segments =
    let other_idx = idx + step in
    let strings = merge_strings (get_or segments idx []) (get_or segments other_idx []) in
    if (idx % (2 * step) == 0) && ltb other_idx thread_count
    then set (set segments idx strings) other_idx []
    else segments

-- All threads of a round, in the order in which they get to it.
unfoldable pub merge_round :
    (order : List ℕ) → (thread_count step : ℕ) → List (List (List ℕ)) → List (List (List ℕ))
merge_round [] thread_count step segments = segments
merge_round (idx ∷ order) thread_count step segments =
    merge_round order thread_count step (merge_thread thread_count step idx segments)

-- `for (int step = 1; step < thread_count; step *= 2)`: a round begins when all threads have reached
-- the barrier. `order` gives the order in the round of a step.
unfoldable pub merge_rounds :
    (fuel : ℕ)
    → (order : ℕ → List ℕ) → (thread_count step : ℕ) → List (List (List ℕ))
    → Run (List (List (List ℕ)))
merge_rounds zero order thread_count step segments = no_fuel
merge_rounds (suc fuel) order thread_count step segments =
    let more =
      merge_rounds fuel order thread_count (2 * step)
        (merge_round (order step) thread_count step segments) in
    if ltb step thread_count then more else ok segments
