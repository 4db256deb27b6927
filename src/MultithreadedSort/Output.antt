-- ===== src/MultithreadedSort/Output.antt =====
-- What multithreaded-sort.c prints.
use mathlib.Core.List.{append-nil}
use mathlib.Core.List.Perm
use sysprogramming_examples.Prelude.{
  ℕ, zero, suc, ◌/◌, ◌^◌, ◌≤◌, ◌<◌, ◌≡◌, ◌≢◌, ◌||◌, refl, ap, ◌∙◌, false, lt→ltb, ◌+◌, List, [],
  ◌∷◌, ◌++◌, Option, none, some, Perm, arith, ltb,
}
use sysprogramming_examples.Prelude.Run.{Returns, returns, Returns-then, Returns-weaken}
use sysprogramming_examples.Memory.{length, take, drop}
use sysprogramming_examples.Memory.Laws.{take-append-drop, length-append}
use sysprogramming_examples.SortCommon.{compare_str_full}
use sysprogramming_examples.Order.{Sorts, All}
use sysprogramming_examples.Order.Callbacks.{compare_str_full-IsOrder}
use sysprogramming_examples.Isort.Laws.{isort_r-StablySorts}
use sysprogramming_examples.Msort.Laws.{msort_r-StablySorts}
use sysprogramming_examples.Hsort.Laws.{hsort_r-Sorts}
use sysprogramming_examples.TernaryHsort.Laws.{ternary_hsort_r-Sorts}
use sysprogramming_examples.MergeTree.{Contains}
use sysprogramming_examples.MergeTree.Contents.{concat}
use sysprogramming_examples.MergeTree.Rounds.{IsMergedSort}
use sysprogramming_examples.Psort.Rounds.{IsTurns}
use sysprogramming_examples.Psort.Parallel.{
  parallel_hsort_r, parallel_ternary_hsort_r, parallel_qsort_r, parallel_isort_r, parallel_msort_r,
}
use sysprogramming_examples.Psort.Laws.{parallel-Sorts}
use sysprogramming_examples.MultithreadedSort.{merge_rounds}
use sysprogramming_examples.MultithreadedSort.Laws.{str_compare, IsOrdered}
use sysprogramming_examples.MultithreadedSort.Rounds.{merge_rounds_lem}
use sysprogramming_examples.MultithreadedSort.Program.{
  MtSortType, mt_heap_sort, mt_ternary_heap_sort, mt_quick_sort, mt_flash_sort, mt_flash_sort_bin,
  mt_insertion_sort, mt_merge_sort, null, Resources, sort_alone, sort_parallel, sort_segment,
  sort_segments, divide, print_sorted,
}

-- Psort is not used, or with a number of threads for which each has one turn.
abbrev pub CanRun {κ} : {Double : Type κ} → Resources Double → (psort : Option ℕ) → Type 0
CanRun r none = Unit
CanRun r (some threads) =
    (0 < threads)
    × (threads < 2 ^ 31)
    × ((idx : ℕ) → IsTurns threads (r.schedule idx).sorting)
    × ((idx step : ℕ) → IsTurns threads ((r.schedule idx).merging step))

length-divide : (n len : ℕ) (strings : List (List ℕ)) → length (divide n len strings) ≡ n
unfolding divide
length-divide zero len strings = refl
length-divide (suc zero) len strings = refl
length-divide (suc (suc n)) len strings = ap suc (length-divide (suc n) len (drop len strings))

concat-divide :
    (n len : ℕ) (strings : List (List ℕ)) → concat (divide (suc n) len strings) ≡ strings
unfolding divide
concat-divide zero len strings = append-nil strings
concat-divide (suc n) len strings =
    ap (λ l. take len strings ++ l) (concat-divide n len (drop len strings))
    ∙ take-append-drop len strings

module _ {κ} {Double : Type κ} (r : Resources Double)
    (allocates : (n : ℕ) → length (r.platform.malloc n) ≡ n)
    (quick : (a : List (List ℕ))
      → Sorts str_compare 0 a (r.platform.qsort_r a (length a) str_compare 0)) where
  alone-Sorts :
      (sort_type : MtSortType) (strings : List (List ℕ))
      → sort_type ≢ mt_flash_sort
      → sort_type ≢ mt_flash_sort_bin
      → length strings ≤ 2 ^ 62
      → Returns (Sorts str_compare 0 strings) (sort_alone r sort_type strings)
  unfolding sort_alone
  alone-Sorts mt_heap_sort strings f b h = hsort_r-Sorts (compare_str_full-IsOrder 0) strings h
  alone-Sorts mt_ternary_heap_sort strings f b h =
      ternary_hsort_r-Sorts (compare_str_full-IsOrder 0) strings h
  alone-Sorts mt_quick_sort strings f b h = returns (quick strings)
  alone-Sorts mt_flash_sort strings f b h = absurd (f refl)
  alone-Sorts mt_flash_sort_bin strings f b h = absurd (b refl)
  alone-Sorts mt_insertion_sort strings f b h =
      Returns-weaken (λ a s. s.sorts) (isort_r-StablySorts (compare_str_full-IsOrder 0) strings)
  alone-Sorts mt_merge_sort strings f b h =
      Returns-weaken (λ a s. s.sorts)
        (msort_r-StablySorts (compare_str_full-IsOrder 0) strings
          (r.platform.malloc (length strings)) h (allocates (length strings)))

  all_parallel :
      (idx threads : ℕ) (strings : List (List ℕ))
      → CanRun r (some threads)
      → length strings ≤ 2 ^ 62
      → Returns (Sorts str_compare 0 strings) (
          parallel_hsort_r r.platform
            (r.schedule idx)
            strings
            (length strings)
            compare_str_full
            null
            threads)
        × Returns (Sorts str_compare 0 strings) (
            parallel_ternary_hsort_r r.platform
              (r.schedule idx)
              strings
              (length strings)
              compare_str_full
              null
              threads)
        × Returns (Sorts str_compare 0 strings) (
            parallel_qsort_r r.platform
              (r.schedule idx)
              strings
              (length strings)
              compare_str_full
              null
              threads)
        × Returns (Sorts str_compare 0 strings) (
            parallel_isort_r r.platform
              (r.schedule idx)
              strings
              (length strings)
              compare_str_full
              null
              threads)
        × Returns (Sorts str_compare 0 strings) (
            parallel_msort_r r.platform
              (r.schedule idx)
              strings
              (length strings)
              compare_str_full
              null
              threads)
  all_parallel idx threads strings run h =
      parallel-Sorts r.platform (r.schedule idx) strings str_compare 0 threads
        (compare_str_full-IsOrder 0) allocates quick (omega (arith, run.1)) run.0 (run.2 idx)
        (run.3 idx) h

  with_psort-Sorts :
      (idx threads : ℕ) (sort_type : MtSortType) (strings : List (List ℕ))
      → CanRun r (some threads)
      → sort_type ≢ mt_flash_sort
      → sort_type ≢ mt_flash_sort_bin
      → length strings ≤ 2 ^ 62
      → Returns (Sorts str_compare 0 strings) (sort_parallel r idx threads sort_type strings)
  unfolding sort_parallel
  with_psort-Sorts idx threads mt_heap_sort strings run f b h =
      (all_parallel idx threads strings run h).0
  with_psort-Sorts idx threads mt_ternary_heap_sort strings run f b h =
      (all_parallel idx threads strings run h).1
  with_psort-Sorts idx threads mt_quick_sort strings run f b h =
      (all_parallel idx threads strings run h).2
  with_psort-Sorts idx threads mt_flash_sort strings run f b h = absurd (f refl)
  with_psort-Sorts idx threads mt_flash_sort_bin strings run f b h = absurd (b refl)
  with_psort-Sorts idx threads mt_insertion_sort strings run f b h =
      (all_parallel idx threads strings run h).3
  with_psort-Sorts idx threads mt_merge_sort strings run f b h =
      (all_parallel idx threads strings run h).4

  segment-Sorts :
      (psort : Option ℕ) (idx : ℕ) (sort_type : MtSortType) (strings : List (List ℕ))
      → CanRun r psort
      → sort_type ≢ mt_flash_sort
      → sort_type ≢ mt_flash_sort_bin
      → length strings ≤ 2 ^ 62
      → Returns (Sorts str_compare 0 strings) (sort_segment r psort idx sort_type strings)
  unfolding sort_segment
  segment-Sorts none idx sort_type strings run f b h = alone-Sorts sort_type strings f b h
  segment-Sorts (some threads) idx sort_type strings run f b h =
      with_psort-Sorts idx threads sort_type strings run f b h

  -- Sorted segments with the strings of those before.
  pub record AreSorted (before after : List (List (List ℕ))) : Type 0 where
    pub count : length after ≡ length before
    pub ordered : All IsOrdered after
    pub perm : Perm (concat after) (concat before)

  segments-AreSorted :
      (psort : Option ℕ) (idx : ℕ) (sort_type : MtSortType) (segments : List (List (List ℕ)))
      → CanRun r psort
      → sort_type ≢ mt_flash_sort
      → sort_type ≢ mt_flash_sort_bin
      → length (concat segments) ≤ 2 ^ 62
      → Returns (AreSorted segments) (sort_segments r psort idx sort_type segments)
  unfolding sort_segments
  segments-AreSorted psort idx sort_type [] run f b h =
      returns (record { count = refl; ordered = tt; perm = Perm.rfl })
  segments-AreSorted psort idx sort_type (strings ∷ segments) run f b h =
      let both = length-append strings (concat segments) in
      Returns-then (segment-Sorts psort idx sort_type strings run f b (omega (arith, both)))
        (λ sorted own.
          Returns-then
            (segments-AreSorted psort (idx + 1) sort_type segments run f b (omega (arith, both)))
            (λ others rest. returns (record {
              count = ap suc rest.count;
              ordered = (own.sorted, rest.ordered);
              perm =
                  Perm.trans (Perm.append_right (concat others) own.perm)
                    (Perm.append_left strings rest.perm);
            })))

  -- The program prints the strings of its input in the order of `strcmp`, each as often as it is there,
  -- for 1 to 1024 threads, with each sort type but the two flashsorts, with and without psort, in
  -- whatever order the threads take their turns in each round of merging, and the inner threads of each
  -- thread in each phase of psort: there are less than 2^31 strings, each thread has a turn in each
  -- round, and each of the 1 to 2^31 - 1 inner threads one turn in each phase of psort.
  -- `qsort_r` sorts, and `malloc` gives memory of the size asked for.
  pub print_sorted-Sorts :
      (psort : Option ℕ) (sort_type : MtSortType) (order : ℕ → List ℕ) (thread_count : ℕ)
      (strings : List (List ℕ))
      → CanRun r psort
      → sort_type ≢ mt_flash_sort
      → sort_type ≢ mt_flash_sort_bin
      → 0 < thread_count
      → thread_count ≤ 1024
      → ((step idx : ℕ) → idx < thread_count → Contains idx (order step))
      → length strings < 2 ^ 31
      → Returns
          (Sorts str_compare 0 strings)
          (print_sorted r psort sort_type order thread_count strings)
  unfolding print_sorted
  print_sorted-Sorts psort sort_type order zero strings run f b hn ht turns h = absurd (omega arith)
  print_sorted-Sorts psort sort_type order (suc n) strings run f b hn ht turns h =
      let len = length strings / suc n in
      let whole = concat-divide n len strings in
      let in_range : (ltb (suc n) 1 || ltb 1024 (suc n)) ≡ false = ground arith in
      rw (in_range, lt→ltb (length strings) 2147483648 h)
        (Returns-then
          (segments-AreSorted psort 0 sort_type (divide (suc n) len strings) run f b
            (omega (arith, ap length whole)))
          (λ segments sorted.
            let count : length segments ≡ suc n =
              sorted.count ∙ length-divide (suc n) len strings in
            let rounds : Returns (IsMergedSort IsOrdered segments)
                (merge_rounds (suc (suc n)) order (suc n) 1 segments) =
              rw (← count) (
                merge_rounds_lem order segments (λ step idx hi. turns step idx (omega arith))
                  sorted.ordered) in
            Returns-then rounds (λ merged m.
              returns (record {
                sorted = m.ordered;
                perm = Perm.trans m.perm (rw whole at sorted.perm);
              }))))
