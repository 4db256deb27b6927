-- ===== src/Tests/Psorting.antt =====
-- psort_r with three threads on seven numbers.
use sysprogramming_examples.Prelude.{
  ℕ, zero, suc, ◌+◌, ◌-◌, ◌*◌, ◌/◌, ◌<◌, ◌≡◌, inl, inr, refl, ap, List, [], ◌∷◌, ℤ, pos, negsuc,
  arith, ltb,
}
use sysprogramming_examples.Prelude.Run.{Run, ok, fault, no_fuel, Returns, returns, Returns-weaken}
use sysprogramming_examples.Memory.{length, get_or, load, store, move_block, on_part}
use sysprogramming_examples.SortCommon.{CompareFun3, compare_int_full}
use sysprogramming_examples.Order.{Sorts, All, IsSorted, Le}
use sysprogramming_examples.Order.Callbacks.{compare_int_full-IsOrder}
use sysprogramming_examples.Isort.{isort_r}
use sysprogramming_examples.Isort.Laws.{isort_r-StablySorts}
use sysprogramming_examples.MergeTree.{Contains}
use sysprogramming_examples.MergeTree.Blocks.{offset}
use sysprogramming_examples.Msort.{msort_r}
use sysprogramming_examples.Fsort.{Doubles}
use sysprogramming_examples.Psort.{
  SortableData, thread_round, merge_segments, psort_merge_loop, partition,
}
use sysprogramming_examples.Psort.Parallel.{
  merge_sort, Platform, Job, Schedule, psort_r, psort_rounds, psort_round, sort_phase, thread_sort,
  sort_by, copy_back, parallel_hsort_r, parallel_ternary_hsort_r, parallel_qsort_r,
  parallel_isort_r, parallel_msort_r,
}
use sysprogramming_examples.Psort.Round.{segment, no_segment}
use sysprogramming_examples.Psort.Layout.{IsLaid}
use sysprogramming_examples.Psort.Rounds.{IsTurns, IsMergedTree, psort_rounds-join_rounds}
use sysprogramming_examples.Psort.Laws.{psort_r-Sorts, parallel-Sorts}

abbrev compare : CompareFun3 ℤ ℕ
compare = compare_int_full

abbrev filled : ℕ → List ℤ
filled zero = []
filled (suc n) = pos 9 ∷ filled n

length-filled : (n : ℕ) → length (filled n) ≡ n
length-filled zero = refl
length-filled (suc n) = ap suc (length-filled n)

-- Numbers in the place of doubles.
abbrev doubles : Doubles ℕ
doubles = record {
  plus = λ a b. a + b;
  minus = λ a b. a - b;
  times = λ a b. a * b;
  divided = λ a b. a / b;
  less = ltb;
  from_size = λ n. n;
  to_size = λ n. n;
  tiny = 0;
  class_factor = 1;
}

result_or : List ℤ → Run (List ℤ) → List ℤ
result_or a (ok b) = b
result_or a fault = a
result_or a no_fuel = a

result_or_lem :
    (callback : CompareFun3 ℤ ℕ) (arg : ℕ) (a : List ℤ) (call : Run (List ℤ))
    → Returns (Sorts callback arg a) call
    → Sorts callback arg a (result_or a call)
unfolding result_or
result_or_lem callback arg a call (returns p) = p

-- Insertion sort in the place of `qsort_r`.
abbrev platform : Platform ℤ ℕ ℕ
platform = record {
  malloc = filled;
  doubles = doubles;
  qsort_r = λ a n callback arg. result_or a (isort_r a n callback arg);
}

abbrev job : Job ℤ ℕ ℕ ℕ
job = record {
  thread_count = 3;
  selected_sort_type = merge_sort;
  compare = compare;
  compare_data = 0;
  metric = λ x m. 0;
  metric_data = 0;
}

abbrev turns : List ℕ
turns = 2 ∷ 0 ∷ 1 ∷ []

abbrev schedule : Schedule
schedule = record { sorting = turns; merging = λ step. turns }

turns-Contains : (idx : ℕ) → idx < 3 → Contains idx turns
turns-Contains zero h = inr (inl refl)
turns-Contains (suc zero) h = inr (inr (inl refl))
turns-Contains (suc (suc zero)) h = inl refl
turns-Contains (suc (suc (suc idx))) h = absurd (omega arith)

turns-IsTurns : IsTurns 3 turns
turns-IsTurns = record {
  inside = (omega arith, (omega arith, (omega arith, tt)));
  once = (
    λ c. elim c [
      | inl e ↦ absurd (omega arith)
      | inr d ↦ elim d [ inl e ↦ absurd (omega arith) | inr none_left ↦ none_left ]
    ],
    (λ c. elim c [ inl e ↦ absurd (omega arith) | inr none_left ↦ none_left ], (λ c. c, tt)),
  );
  every = turns-Contains;
}

abbrev numbers : List ℤ
numbers = pos 5 ∷ pos 3 ∷ negsuc 0 ∷ pos 8 ∷ pos 2 ∷ pos 7 ∷ pos 2 ∷ []

quick : (a : List ℤ) → Sorts compare 0 a (platform.qsort_r a (length a) compare 0)
quick a =
    result_or_lem compare 0 a (isort_r a (length a) compare 0)
      (Returns-weaken (λ b s. s.sorts) (isort_r-StablySorts (compare_int_full-IsOrder 0) a))

psort_r-sorted :
    psort_r platform job schedule numbers 7
    ≡ ok (negsuc 0 ∷ pos 2 ∷ pos 2 ∷ pos 3 ∷ pos 5 ∷ pos 7 ∷ pos 8 ∷ [])
unfolding psort_r sort_phase thread_sort sort_by msort_r psort_rounds psort_round thread_round
    merge_segments psort_merge_loop partition copy_back on_part load store move_block
    compare_int_full
psort_r-sorted = refl

psort_r-Sorts_example : Returns (Sorts compare 0 numbers) (psort_r platform job schedule numbers 7)
psort_r-Sorts_example =
    psort_r-Sorts platform job (compare_int_full-IsOrder 0) length-filled quick (omega arith)
      schedule numbers turns-IsTurns (λ step. turns-IsTurns) (omega arith) (omega arith) (λ e. cc)
      (λ e. cc)

parallel-Sorts_example :
    Returns (Sorts compare 0 numbers) (parallel_hsort_r platform schedule numbers 7 compare 0 3)
    × Returns
        (Sorts compare 0 numbers)
        (parallel_ternary_hsort_r platform schedule numbers 7 compare 0 3)
    × Returns (Sorts compare 0 numbers) (parallel_qsort_r platform schedule numbers 7 compare 0 3)
    × Returns (Sorts compare 0 numbers) (parallel_isort_r platform schedule numbers 7 compare 0 3)
    × Returns (Sorts compare 0 numbers) (parallel_msort_r platform schedule numbers 7 compare 0 3)
parallel-Sorts_example =
    parallel-Sorts platform schedule numbers compare 0 3 (compare_int_full-IsOrder 0) length-filled
      quick (omega arith) (omega arith) turns-IsTurns (λ step. turns-IsTurns) (omega arith)

abbrev blocks : List (List ℤ)
blocks = (pos 3 ∷ pos 5 ∷ []) ∷ (negsuc 0 ∷ pos 8 ∷ []) ∷ (pos 2 ∷ []) ∷ []

abbrev segments : List SortableData
segments = segment 0 2 ∷ segment 2 2 ∷ segment 4 1 ∷ []

blocks-pointers :
    (k : ℕ)
    → Unit {0}
    → k < 3
    → get_or segments k no_segment ≡ segment (offset blocks k) (length (get_or blocks k []))
blocks-pointers zero t h = refl
blocks-pointers (suc zero) t h = refl
blocks-pointers (suc (suc zero)) t h = refl
blocks-pointers (suc (suc (suc k))) t h = absurd (omega arith)

blocks-IsLaid : IsLaid (λ k. Unit) (pos 3 ∷ pos 5 ∷ negsuc 0 ∷ pos 8 ∷ pos 2 ∷ []) segments blocks
blocks-IsLaid = record { place = refl; size = refl; pointers = blocks-pointers }

blocks-IsSorted : All (IsSorted (Le compare 0)) blocks
unfolding compare_int_full
blocks-IsSorted = (((refl, tt), (tt, tt)), (((refl, tt), (tt, tt)), ((tt, tt), tt)))

psort_rounds-join_rounds_example :
    Returns
      (IsMergedTree platform job
        (compare_int_full-IsOrder 0)
        length-filled
        (omega arith)
        4
        (λ step. turns)
        1
        blocks)
      (psort_rounds platform job 4
        (λ step. turns)
        1
        (pos 3 ∷ pos 5 ∷ negsuc 0 ∷ pos 8 ∷ pos 2 ∷ [])
        segments)
psort_rounds-join_rounds_example =
    psort_rounds-join_rounds platform job (compare_int_full-IsOrder 0) length-filled (omega arith)
      (λ step. turns) (pos 3 ∷ pos 5 ∷ negsuc 0 ∷ pos 8 ∷ pos 2 ∷ []) segments blocks
      (λ step. turns-IsTurns) refl blocks-IsSorted blocks-IsLaid
