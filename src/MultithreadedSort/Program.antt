-- ===== src/MultithreadedSort/Program.antt =====
-- posix/threads/multithreaded-sort.c: the program from its option to the strings that it prints. Each
-- thread sorts the strings of its own segment, before the first barrier. The calls for threads
-- succeed; the usage message and an exit with an error are a fault.
use sysprogramming_examples.Prelude.{
  ℕ, zero, suc, ◌+◌, ◌^◌, ◌/◌, ◌==◌, ◌||◌, List, [], ◌∷◌, Option, none, some, ltb, if◌then◌else◌,
}
use sysprogramming_examples.Prelude.Run.{Run, ok, fault, ◌>>=◌}
use sysprogramming_examples.Memory.{length, take, drop, get_or}
use sysprogramming_examples.SortCommon.{MetricFun2, compare_str_full}
use sysprogramming_examples.Isort.{isort_r}
use sysprogramming_examples.Msort.{msort_r}
use sysprogramming_examples.Hsort.{hsort_r}
use sysprogramming_examples.TernaryHsort.{ternary_hsort_r}
use sysprogramming_examples.Fsort.{fsort_r}
use sysprogramming_examples.Psort.Parallel.{
  Platform, Schedule, parallel_hsort_r, parallel_ternary_hsort_r, parallel_qsort_r,
  parallel_fsort_r, parallel_isort_r, parallel_msort_r,
}
use sysprogramming_examples.MultithreadedSort.{merge_rounds}

-- `enum mt_sort_type`
pub data MtSortType : Type 0 where
  mt_heap_sort mt_ternary_heap_sort mt_quick_sort mt_flash_sort : MtSortType
  mt_flash_sort_bin mt_insertion_sort mt_merge_sort : MtSortType

-- The switch over `opt_char`; none stands for the usage message.
unfoldable pub selected_mt_sort_type : (opt_char : ℕ) → Option MtSortType
selected_mt_sort_type opt_char =
    if opt_char == 104
    then some mt_heap_sort
    else if opt_char == 116
    then some mt_ternary_heap_sort
    else if opt_char == 102
    then some mt_flash_sort
    else if opt_char == 98
    then some mt_flash_sort_bin
    else if opt_char == 113
    then some mt_quick_sort
    else if opt_char == 105
    then some mt_insertion_sort
    else if opt_char == 109
    then some mt_merge_sort
    else none

-- `(void *) NULL` as a parameter that is not used
abbrev pub null : ℕ
null = 0

-- What the program takes from elsewhere: the C library, and the two metrics for strings.
pub record Resources {κ} (Double : Type κ) : Type κ where
  pub platform : Platform (List ℕ) ℕ Double
  pub metric_str_full : MetricFun2 (List ℕ) Double ℕ
  pub metric_binary_printable_pref : MetricFun2 (List ℕ) Double ℕ
  -- the order of the inner threads of psort in each thread of the program
  pub schedule : (idx : ℕ) → Schedule

module _ {κ} {Double : Type κ} (r : Resources Double) where
  -- The switch of thread_run without psort.
  unfoldable pub sort_alone : MtSortType → (strings : List (List ℕ)) → Run (List (List ℕ))
  sort_alone mt_heap_sort strings = hsort_r strings (length strings) compare_str_full null
  sort_alone mt_ternary_heap_sort strings =
      ternary_hsort_r strings (length strings) compare_str_full null
  sort_alone mt_quick_sort strings =
      ok (r.platform.qsort_r strings (length strings) compare_str_full null)
  sort_alone mt_flash_sort strings =
      fsort_r r.platform.doubles strings (length strings) compare_str_full null r.metric_str_full
        null
  sort_alone mt_flash_sort_bin strings =
      fsort_r r.platform.doubles strings (length strings) compare_str_full null
        r.metric_binary_printable_pref null
  sort_alone mt_insertion_sort strings = isort_r strings (length strings) compare_str_full null
  sort_alone mt_merge_sort strings =
      msort_r strings (length strings) compare_str_full null (r.platform.malloc (length strings))

  -- The switch of thread_run with psort, in the thread `idx`.
  unfoldable pub sort_parallel :
      (idx psort_internal_threads : ℕ)
      → MtSortType
      → (strings : List (List ℕ)) → Run (List (List ℕ))
  sort_parallel idx threads mt_heap_sort strings =
      parallel_hsort_r r.platform (r.schedule idx) strings (length strings) compare_str_full null
        threads
  sort_parallel idx threads mt_ternary_heap_sort strings =
      parallel_ternary_hsort_r r.platform (r.schedule idx) strings (length strings) compare_str_full
        null threads
  sort_parallel idx threads mt_quick_sort strings =
      parallel_qsort_r r.platform (r.schedule idx) strings (length strings) compare_str_full null
        threads
  sort_parallel idx threads mt_flash_sort strings =
      parallel_fsort_r r.platform (r.schedule idx) strings (length strings) compare_str_full null
        r.metric_str_full null threads
  sort_parallel idx threads mt_flash_sort_bin strings =
      parallel_fsort_r r.platform (r.schedule idx) strings (length strings) compare_str_full null
        r.metric_binary_printable_pref null threads
  sort_parallel idx threads mt_insertion_sort strings =
      parallel_isort_r r.platform (r.schedule idx) strings (length strings) compare_str_full null
        threads
  sort_parallel idx threads mt_merge_sort strings =
      parallel_msort_r r.platform (r.schedule idx) strings (length strings) compare_str_full null
        threads

  -- `use_psort`, with `psort_internal_threads`, or not
  unfoldable pub sort_segment :
      (psort : Option ℕ) → (idx : ℕ) → MtSortType → (strings : List (List ℕ)) → Run (List (List ℕ))
  sort_segment none idx sort_type strings = sort_alone sort_type strings
  sort_segment (some threads) idx sort_type strings = sort_parallel idx threads sort_type strings

  -- What all threads from `idx` on do before the first barrier.
  unfoldable pub sort_segments :
      (psort : Option ℕ)
      → (idx : ℕ) → MtSortType
      → List (List (List ℕ))
      → Run (List (List (List ℕ)))
  sort_segments psort idx sort_type [] = ok []
  sort_segments psort idx sort_type (strings ∷ segments) = do
    sorted ← sort_segment psort idx sort_type strings
    others ← sort_segments psort (idx + 1) sort_type segments
    ok (sorted ∷ others)

-- The loop over `i` of main that fills `segments`, with `rounds` = thread_count - i: the last segment
-- gets what is left.
unfoldable pub divide : (rounds len_per_thread : ℕ) → List (List ℕ) → List (List (List ℕ))
divide zero len_per_thread strings = []
divide (suc zero) len_per_thread strings = strings ∷ []
divide (suc (suc rounds)) len_per_thread strings =
    take len_per_thread strings ∷ divide (suc rounds) len_per_thread (drop len_per_thread strings)

-- main behind the option: the strings in the order in which they are printed. `order` is that of the
-- threads in each round of merging. A number of strings that does not fit into an `int` is a fault.
unfoldable pub print_sorted {κ} :
    {Double : Type κ}
    → Resources Double
    → (psort : Option ℕ) → MtSortType
    → (order : ℕ → List ℕ) → (thread_count : ℕ) → (strings : List (List ℕ)) → Run (List (List ℕ))
print_sorted r psort sort_type order thread_count strings =
    let sorted : Run (List (List ℕ)) = do
      let len_per_thread = length strings / thread_count
      segments ← sort_segments r psort 0 sort_type (divide thread_count len_per_thread strings)
      merged ← merge_rounds (suc thread_count) order thread_count 1 segments
      ok (get_or merged 0 [])
    in if ltb thread_count 1 || ltb 1024 thread_count
      then fault
      else if ltb (length strings) (2 ^ 31)
      then sorted
      else fault
