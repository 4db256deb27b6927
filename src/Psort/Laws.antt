-- ===== src/Psort/Laws.antt =====
-- psort_r as a whole.
use mathlib.Core.List.Perm
use native.Mathlib.Decide.{dec_lt}
use sysprogramming_examples.Prelude.{
  ℕ, suc, ◌^◌, ◌≤◌, ◌<◌, ◌≡◌, ◌≢◌, inl, refl, ap, ◌∙◌, List, [], ◌∷◌, some, Perm, arith, le→leb,
  lt→leb,
}
use sysprogramming_examples.Prelude.Run.{ok, Returns, returns, Returns-then, Returns-ok}
use sysprogramming_examples.Memory.{length, get_or, load}
use sysprogramming_examples.Memory.Index.{load-get_or}
use sysprogramming_examples.SortCommon.{CompareFun3}
use sysprogramming_examples.Order.{IsOrder, IsSorted, Le, Sorts, All}
use sysprogramming_examples.MergeTree.Contents.{concat}
use sysprogramming_examples.MergeTree.Blocks.{offset}
use sysprogramming_examples.MergeTree.Rounds.{IsMergedSort, join_rounds_lem}
use sysprogramming_examples.Psort.{SortableData}
use sysprogramming_examples.Psort.Round.{segment, no_segment}
use sysprogramming_examples.Psort.Parallel.{
  SortType, flash_sort, other, Platform, Job, Schedule, psort_r, copy_back, without_metric,
  without_metric_job, heap_sort, ternary_heap_sort, quick_sort, insertion_sort, merge_sort,
  parallel_hsort_r, parallel_ternary_hsort_r, parallel_qsort_r, parallel_isort_r, parallel_msort_r,
}
use sysprogramming_examples.Psort.Partition.{partition-IsPartition}
use sysprogramming_examples.Psort.Split.{contents, length-contents, contents-IsLaid, All-get_or}
use sysprogramming_examples.Psort.Sorting.{sort_phase-IsSortedPhase}
use sysprogramming_examples.Psort.Rounds.{
  IsTurns, IsMergedTree, merge-IsCombine, psort_rounds-join_rounds,
}

short_lists {ℓ κ} :
    {A : Type ℓ} {M : Type κ} (compare : CompareFun3 A M) (arg : M) (a : List A)
    → length a ≤ 1
    → Sorts compare arg a a
short_lists compare arg [] h = record { sorted = tt; perm = Perm.rfl }
short_lists compare arg (x ∷ []) h = record { sorted = (tt, tt); perm = Perm.rfl }
short_lists compare arg (x ∷ y ∷ a) h = absurd (omega arith)

offset_first {ℓ} : {A : Type ℓ} (blocks : List (List A)) → offset blocks 0 ≡ 0
offset_first [] = refl
offset_first (b ∷ blocks) = refl

-- A first segment that is at the beginning of the array stays there.
copied {ℓ κ} :
    {A : Type ℓ} {P : List A → Type κ} (nmemb : ℕ) (memory : List A)
    → P memory
    → Returns P (copy_back nmemb memory (some 0))
unfolding copy_back
copied nmemb memory h = returns h

module _ {ℓ κ μ ν} {A : Type ℓ} {M : Type κ} {Double : Type μ} {MetricData : Type ν}
    (p : Platform A M Double) (job : Job A M Double MetricData)
    (o : IsOrder job.compare job.compare_data) (allocates : (n : ℕ) → length (p.malloc n) ≡ n)
    (quick : (a : List A)
      → Sorts job.compare job.compare_data a (p.qsort_r a (length a) job.compare job.compare_data))
    (few : job.thread_count ≤ 2 ^ 31) where
  -- Where sorted blocks have been merged, the array is sorted, and the first segment begins with it.
  merged_tree :
      (order : ℕ → List ℕ) (blocks : List (List A)) (start : List A)
      (result : List A × List SortableData)
      → ((step : ℕ) → IsTurns job.thread_count (order step))
      → 0 < job.thread_count
      → length blocks ≡ job.thread_count
      → All (IsSorted (Le job.compare job.compare_data)) blocks
      → Perm (concat blocks) start
      → IsMergedTree p job o allocates few (suc job.thread_count) order 1 blocks result
      → Sorts job.compare job.compare_data start (result.0)
        × ((first : SortableData) × (load (result.1) 0 ≡ ok first) × (first.base ≡ some 0))
  merged_tree order blocks start result turns hn count sorted perm m =
      let tree : Returns (IsMergedSort (IsSorted (Le job.compare job.compare_data)) blocks)
          (ok m.final) =
        rw (← m.tree, ← count)
          (join_rounds_lem (merge-IsCombine o) order blocks
            (λ step idx h. (turns step).every idx (omega arith)) sorted) in
      let merged : IsMergedSort (IsSorted (Le job.compare job.compare_data)) blocks m.final =
        Returns-ok tree in
      let place : result.0 ≡ get_or m.final 0 [] = m.laid.place ∙ merged.alone in
      (
        record { sorted = rw place merged.ordered; perm = rw place (Perm.trans merged.perm perm) },
        (
          segment (offset m.final 0) (length (get_or m.final 0 [])),
          load-get_or no_segment (result.1) 0 (omega (arith, m.laid.size, m.count))
              ∙ ap ok (m.laid.pointers 0 refl (omega (arith, m.count))),
          ap some (offset_first m.final),
        ),
      )

  nothing_to_do :
      (schedule : Schedule) (base : List A)
      → length base ≤ 1
      → Returns
          (Sorts job.compare job.compare_data base)
          (psort_r p job schedule base (length base))
  unfolding psort_r
  nothing_to_do schedule base h =
      rw (le→leb (length base) 1 h) (returns (short_lists job.compare job.compare_data base h))

  -- For more than one element: the steps of psort_r.
  sorting_steps :
      (schedule : Schedule) (base : List A)
      → IsTurns job.thread_count schedule.sorting
      → ((step : ℕ) → IsTurns job.thread_count (schedule.merging step))
      → 0 < job.thread_count
      → length base ≤ 2 ^ 62
      → job.selected_sort_type ≢ other
      → job.selected_sort_type ≢ flash_sort
      → 1 < length base
      → Returns
          (Sorts job.compare job.compare_data base)
          (psort_r p job schedule base (length base))
  unfolding psort_r
  sorting_steps schedule base sorting merging hn long known no_flash more =
      rw (lt→leb (length base) 1 more) (
        Returns-then (partition-IsPartition (length base) job.thread_count hn) (λ segments parts.
          let blocks = contents segments base in
          Returns-then
            (sort_phase-IsSortedPhase p job o allocates quick base job.thread_count segments long
              known no_flash schedule.sorting blocks base sorting.inside
              (record {
                laid = contents-IsLaid segments base parts.covers;
                count = length-contents segments base ∙ parts.size;
                perm = Perm.rfl;
              }))
            (λ sorted phase.
              let ordered : All (IsSorted (Le job.compare job.compare_data)) phase.blocks =
                All-get_or (IsSorted (Le job.compare job.compare_data)) phase.blocks (λ k hk.
                  phase.sorted k (inl (sorting.every k (omega (arith, phase.phase.count))))) in
              Returns-then
                (psort_rounds-join_rounds p job o allocates few schedule.merging sorted segments
                  phase.blocks merging phase.phase.count ordered phase.phase.laid)
                (λ result m.
                  let (sorts, (first, loaded, start)) =
                    merged_tree schedule.merging phase.blocks base result merging hn
                      phase.phase.count ordered (rw (← phase.phase.laid.place) phase.phase.perm)
                      m in
                  rw (loaded, start) (copied (length base) (result.0) sorts)))))

  -- psort_r sorts in parallel, with heapsort, ternary heapsort, quicksort, insertion sort or mergesort
  -- for the segments: for 1 to 2^31 threads and up to 2^62 elements, by a comparison that is a total
  -- preorder, it returns, and the array has the elements of before in ascending order, in whatever
  -- order the threads take their turns when they sort and in each round of merging. That `qsort_r` of
  -- the C library sorts, and that `malloc` gives memory of the size asked for, is taken for granted.
  pub psort_r-Sorts :
      (schedule : Schedule) (base : List A)
      → IsTurns job.thread_count schedule.sorting
      → ((step : ℕ) → IsTurns job.thread_count (schedule.merging step))
      → 0 < job.thread_count
      → length base ≤ 2 ^ 62
      → job.selected_sort_type ≢ other
      → job.selected_sort_type ≢ flash_sort
      → Returns
          (Sorts job.compare job.compare_data base)
          (psort_r p job schedule base (length base))
  psort_r-Sorts schedule base sorting merging hn long known no_flash =
      elim (dec_lt 1 (length base)) [
        | yes more ↦ sorting_steps schedule base sorting merging hn long known no_flash more
        | no few_elements ↦ nothing_to_do schedule base (omega arith)
      ]

module _ {ℓ κ μ} {A : Type ℓ} {M : Type κ} {Double : Type μ} (p : Platform A M Double)
    (schedule : Schedule) (base : List A) (compare : CompareFun3 A M) (argc : M)
    (thread_count : ℕ) where
  -- parallel_hsort_r, parallel_ternary_hsort_r, parallel_qsort_r, parallel_isort_r and
  -- parallel_msort_r return with the elements of before in ascending order, under the conditions under
  -- which psort_r does: a total preorder, 1 to 2^31 threads that each take one turn when they sort and
  -- one in each round of merging, up to 2^62 elements, a `qsort_r` that sorts and a `malloc` that gives
  -- memory of the size asked for.
  pub parallel-Sorts :
      IsOrder compare argc
      → ((n : ℕ) → length (p.malloc n) ≡ n)
      → ((a : List A) → Sorts compare argc a (p.qsort_r a (length a) compare argc))
      → thread_count ≤ 2 ^ 31
      → 0 < thread_count
      → IsTurns thread_count schedule.sorting
      → ((step : ℕ) → IsTurns thread_count (schedule.merging step))
      → length base ≤ 2 ^ 62
      → Returns
          (Sorts compare argc base)
          (parallel_hsort_r p schedule base (length base) compare argc thread_count)
        × Returns
            (Sorts compare argc base)
            (parallel_ternary_hsort_r p schedule base (length base) compare argc thread_count)
        × Returns
            (Sorts compare argc base)
            (parallel_qsort_r p schedule base (length base) compare argc thread_count)
        × Returns
            (Sorts compare argc base)
            (parallel_isort_r p schedule base (length base) compare argc thread_count)
        × Returns
            (Sorts compare argc base)
            (parallel_msort_r p schedule base (length base) compare argc thread_count)
  unfolding parallel_hsort_r parallel_ternary_hsort_r parallel_qsort_r parallel_isort_r
      parallel_msort_r
  parallel-Sorts o allocates quick few hn sorting merging long =
      let by : (sort_type : SortType)
          → sort_type ≢ other
          → sort_type ≢ flash_sort
          → Returns (Sorts compare argc base)
              (without_metric p schedule base (length base) compare argc thread_count sort_type) =
        λ sort_type.
          psort_r-Sorts p (without_metric_job p compare argc thread_count sort_type) o allocates
            quick few schedule base sorting merging hn long in
      (
        by heap_sort (λ e. cc) (λ e. cc),
        by ternary_heap_sort (λ e. cc) (λ e. cc),
        by quick_sort (λ e. cc) (λ e. cc),
        by insertion_sort (λ e. cc) (λ e. cc),
        by merge_sort (λ e. cc) (λ e. cc),
      )
