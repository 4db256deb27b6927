-- ===== src/Tests/Programs.antt =====
-- multithreaded-sort with two threads and mergesort by psort.
use sysprogramming_examples.Prelude.{
  ℕ, zero, suc, ◌+◌, ◌-◌, ◌*◌, ◌/◌, ◌<◌, ◌≡◌, inl, inr, refl, ap, List, [], ◌∷◌, some, arith, ltb,
}
use sysprogramming_examples.Prelude.Run.{Run, ok, fault, no_fuel, Returns, returns, Returns-weaken}
use sysprogramming_examples.Memory.{length}
use sysprogramming_examples.Order.{Sorts}
use sysprogramming_examples.Order.Callbacks.{compare_str_full-IsOrder}
use sysprogramming_examples.Isort.{isort_r}
use sysprogramming_examples.Isort.Laws.{isort_r-StablySorts}
use sysprogramming_examples.MergeTree.{Contains}
use sysprogramming_examples.Fsort.{Doubles}
use sysprogramming_examples.Psort.Parallel.{Platform, Schedule}
use sysprogramming_examples.Psort.Rounds.{IsTurns}
use sysprogramming_examples.MultithreadedSort.Laws.{str_compare}
use sysprogramming_examples.MultithreadedSort.Program.{
  Resources, mt_merge_sort, print_sorted, selected_mt_sort_type,
}
use sysprogramming_examples.MultithreadedSort.Output.{print_sorted-Sorts}

abbrev filled : ℕ → List (List ℕ)
filled zero = []
filled (suc n) = [] ∷ filled n

length-filled : (n : ℕ) → length (filled n) ≡ n
length-filled zero = refl
length-filled (suc n) = ap suc (length-filled n)

result_or : List (List ℕ) → Run (List (List ℕ)) → List (List ℕ)
result_or a (ok b) = b
result_or a fault = a
result_or a no_fuel = a

result_or_lem :
    (a : List (List ℕ)) (call : Run (List (List ℕ)))
    → Returns (Sorts str_compare 0 a) call
    → Sorts str_compare 0 a (result_or a call)
unfolding result_or
result_or_lem a call (returns p) = p

abbrev doubles : Doubles ℕ
doubles = record {
  plus = λ a b. a + b;
  minus = λ a b. a - b;
  times = λ a b. a * b;
  divided = λ a b. a / b;
  less = ltb;
  from_size = λ n. n;
  to_size = λ n. n;
  tiny = 0;
  class_factor = 1;
}

abbrev platform : Platform (List ℕ) ℕ ℕ
platform = record {
  malloc = filled;
  doubles = doubles;
  qsort_r = λ a n callback arg. result_or a (isort_r a n callback arg);
}

-- Psort has one thread.
abbrev schedule : Schedule
schedule = record { sorting = 0 ∷ []; merging = λ step. 0 ∷ [] }

abbrev resources : Resources ℕ
resources = record {
  platform = platform;
  metric_str_full = λ s m. length s;
  metric_binary_printable_pref = λ s m. length s;
  schedule = λ idx. schedule;
}

quick : (a : List (List ℕ)) → Sorts str_compare 0 a (platform.qsort_r a (length a) str_compare 0)
quick a =
    result_or_lem a (isort_r a (length a) str_compare 0)
      (Returns-weaken (λ b s. s.sorts) (isort_r-StablySorts (compare_str_full-IsOrder 0) a))

only_thread : (idx : ℕ) → idx < 1 → Contains idx (0 ∷ [])
only_thread zero h = inl refl
only_thread (suc idx) h = absurd (omega arith)

one-IsTurns : IsTurns 1 (0 ∷ [])
one-IsTurns = record { inside = (omega arith, tt); once = (λ c. c, tt); every = only_thread }

two_threads : (step idx : ℕ) → idx < 2 → Contains idx (1 ∷ 0 ∷ [])
two_threads step zero h = inr (inl refl)
two_threads step (suc zero) h = inl refl
two_threads step (suc (suc idx)) h = absurd (omega arith)

-- "b", "a", "ab"
abbrev strings : List (List ℕ)
strings = (98 ∷ []) ∷ (97 ∷ []) ∷ (97 ∷ 98 ∷ []) ∷ []

option-m : selected_mt_sort_type 109 ≡ some mt_merge_sort
unfolding selected_mt_sort_type
option-m = refl

print_sorted-Sorts_example :
    Returns
      (Sorts str_compare 0 strings)
      (print_sorted resources (some 1) mt_merge_sort (λ step. 1 ∷ 0 ∷ []) 2 strings)
print_sorted-Sorts_example =
    print_sorted-Sorts resources length-filled quick (some 1) mt_merge_sort (λ step. 1 ∷ 0 ∷ []) 2
      strings (omega arith, omega arith, λ idx. one-IsTurns, λ idx step. one-IsTurns) (λ e. cc)
      (λ e. cc) (omega arith) (omega arith) two_threads (omega arith)
