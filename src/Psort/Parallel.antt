-- ===== src/Psort/Parallel.antt =====
-- posix/lib/psort.c: psort_r as a whole, and its variants by sort type. The calls for threads and
-- barriers succeed. Between two barriers the threads work on different parts of the memory; the
-- model lets them take their turns one after another, in an order that is a parameter.
use sysprogramming_examples.Prelude.{
  ℕ, zero, suc, ◌*◌, ◌%◌, ◌^◌, List, [], ◌∷◌, Option, none, some, leb, ltb, if◌then◌else◌,
}
use sysprogramming_examples.Prelude.Run.{Run, ok, fault, no_fuel, ◌>>=◌}
use sysprogramming_examples.Memory.{load, move_block, on_part}
use sysprogramming_examples.SortCommon.{CompareFun3, MetricFun2}
use sysprogramming_examples.Isort.{isort_r}
use sysprogramming_examples.Msort.{msort_r}
use sysprogramming_examples.Hsort.{hsort_r}
use sysprogramming_examples.TernaryHsort.{ternary_hsort_r}
use sysprogramming_examples.Fsort.{Doubles, fsort_r}
use sysprogramming_examples.Psort.{SortableData, partition, thread_round}

-- `enum sort_type`; `other` is any number without a name.
pub data SortType : Type 0 where
  heap_sort ternary_heap_sort quick_sort flash_sort insertion_sort merge_sort other : SortType

-- What psort.c takes from the C library: `malloc`, which gives memory with whatever it holds, the
-- arithmetic of doubles, and `qsort_r`.
pub record Platform {ℓ κ μ} (A : Type ℓ) (M : Type κ) (Double : Type μ) : Type (ℓ ⊔ κ ⊔ μ) where
  pub malloc : ℕ → List A
  pub doubles : Doubles Double
  pub qsort_r : List A → ℕ → CompareFun3 A M → M → List A

-- The parameters of psort_r that all threads get.
pub record Job {ℓ κ μ ν} (A : Type ℓ) (M : Type κ) (Double : Type μ) (MetricData : Type ν)
    : Type (ℓ ⊔ κ ⊔ μ ⊔ ν) where
  pub thread_count : ℕ
  pub selected_sort_type : SortType
  pub compare : CompareFun3 A M
  pub compare_data : M
  pub metric : MetricFun2 A Double MetricData
  pub metric_data : MetricData

-- The order of the threads when they sort, and in the round of a step.
pub record Schedule : Type 0 where
  pub sorting : List ℕ
  pub merging : ℕ → List ℕ

module _ {ℓ} {A : Type ℓ} where
  -- `if (data != base)`: what the first segment has goes to the beginning of the array.
  unfoldable pub copy_back : (nmemb : ℕ) → List A → Option ℕ → Run (List A)
  copy_back nmemb memory none = fault
  copy_back nmemb memory (some zero) = ok memory
  copy_back nmemb memory (some (suc data_start)) = move_block memory 0 memory (suc data_start) nmemb

module _ {ℓ κ μ ν} {A : Type ℓ} {M : Type κ} {Double : Type μ} {MetricData : Type ν}
    (p : Platform A M Double) (job : Job A M Double MetricData) where
  -- The switch over the sort types; the exit with an error in its default branch is a fault.
  unfoldable pub sort_by : SortType → List A → ℕ → Run (List A)
  sort_by heap_sort base nmemb = hsort_r base nmemb job.compare job.compare_data
  sort_by ternary_heap_sort base nmemb = ternary_hsort_r base nmemb job.compare job.compare_data
  sort_by quick_sort base nmemb = ok (p.qsort_r base nmemb job.compare job.compare_data)
  sort_by flash_sort base nmemb =
      fsort_r p.doubles base nmemb job.compare job.compare_data job.metric job.metric_data
  sort_by insertion_sort base nmemb = isort_r base nmemb job.compare job.compare_data
  sort_by merge_sort base nmemb = msort_r base nmemb job.compare job.compare_data (p.malloc nmemb)
  sort_by other base nmemb = fault

  -- What thread `idx` does before the first barrier.
  unfoldable pub thread_sort : (idx : ℕ) → List A → List SortableData → Run (List A)
  thread_sort idx memory segments =
      let sort_at : ℕ → Option ℕ → Run (List A) = λ nmemb base. elim base [
        | none ↦ fault
        | some start ↦ on_part (sort_by job.selected_sort_type) memory start nmemb
      ] in
      do own ← load segments idx; sort_at own.nmemb own.base

  unfoldable pub sort_phase : (order : List ℕ) → List A → List SortableData → Run (List A)
  sort_phase [] memory segments = ok memory
  sort_phase (idx ∷ order) memory segments = do
    sorted ← thread_sort idx memory segments
    sort_phase order sorted segments

  -- The part of all threads in the round of `step`.
  unfoldable pub psort_round :
      (order : List ℕ) → (step : ℕ) → List A → List SortableData → Run (List A × List SortableData)
  psort_round [] step memory segments = ok (memory, segments)
  psort_round (idx ∷ order) step memory segments = do
    (memory', segments') ←
        thread_round p.malloc job.compare job.compare_data job.thread_count idx step memory segments
    psort_round order step memory' segments'

  -- `for (unsigned int step = 1; step < thread_count; step *= 2)`
  unfoldable pub psort_rounds :
      (fuel : ℕ)
      → (order : ℕ → List ℕ) → (step : ℕ) → List A
      → List SortableData
      → Run (List A × List SortableData)
  psort_rounds zero order step memory segments = no_fuel
  psort_rounds (suc fuel) order step memory segments =
      let body : Run (List A × List SortableData) = do
        (memory', segments') ← psort_round (order step) step memory segments
        psort_rounds fuel order ((step * 2) % 2 ^ 32) memory' segments'
      in if ltb step job.thread_count then body else ok (memory, segments)

  unfoldable pub psort_r : Schedule → List A → (nmemb : ℕ) → Run (List A)
  psort_r schedule base nmemb =
      let body : Run (List A) = do
        segments ← partition nmemb job.thread_count
        sorted ← sort_phase schedule.sorting base segments
        (merged, segments') ← psort_rounds (suc job.thread_count) schedule.merging 1 sorted segments
        first ← load segments' 0
        copy_back nmemb merged first.base
      in if leb nmemb 1 then ok base else body

-- What psort_r gets where the metric is NULL. Only flashsort calls it; a constant stands for it.
abbrev pub without_metric_job {ℓ κ μ} :
    {A : Type ℓ} {M : Type κ} {Double : Type μ}
    → Platform A M Double
    → CompareFun3 A M
    → M
    → (thread_count : ℕ) → SortType
    → Job {ℓ, κ, μ, 0} A M Double Unit
without_metric_job p compare argc thread_count sort_type = record {
  thread_count = thread_count;
  selected_sort_type = sort_type;
  compare = compare;
  compare_data = argc;
  metric = λ x data_. p.doubles.from_size 0;
  metric_data = tt;
}

module _ {ℓ κ μ} {A : Type ℓ} {M : Type κ} {Double : Type μ} (p : Platform A M Double)
    (schedule : Schedule) (base : List A) (nmemb : ℕ) (compare : CompareFun3 A M) (argc : M) where
  abbrev pub without_metric : (thread_count : ℕ) → SortType → Run (List A)
  without_metric thread_count sort_type =
      psort_r p (without_metric_job p compare argc thread_count sort_type) schedule base nmemb

  unfoldable pub parallel_hsort_r : (thread_count : ℕ) → Run (List A)
  parallel_hsort_r thread_count = without_metric thread_count heap_sort

  unfoldable pub parallel_ternary_hsort_r : (thread_count : ℕ) → Run (List A)
  parallel_ternary_hsort_r thread_count = without_metric thread_count ternary_heap_sort

  unfoldable pub parallel_qsort_r : (thread_count : ℕ) → Run (List A)
  parallel_qsort_r thread_count = without_metric thread_count quick_sort

  unfoldable pub parallel_isort_r : (thread_count : ℕ) → Run (List A)
  parallel_isort_r thread_count = without_metric thread_count insertion_sort

  unfoldable pub parallel_msort_r : (thread_count : ℕ) → Run (List A)
  parallel_msort_r thread_count = without_metric thread_count merge_sort

  unfoldable pub parallel_fsort_r {ν} :
      {MetricData : Type ν}
      → MetricFun2 A Double MetricData
      → MetricData
      → (thread_count : ℕ) → Run (List A)
  parallel_fsort_r metric argm thread_count =
      psort_r p
        (record {
          thread_count = thread_count;
          selected_sort_type = flash_sort;
          compare = compare;
          compare_data = argc;
          metric = metric;
          metric_data = argm;
        })
        schedule base nmemb
