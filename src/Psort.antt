-- ===== src/Psort.antt =====
-- posix/lib/psort.c: the division of an array among threads, and what a thread does in a round of
-- merging. A segment's base is an index into the array, or none for NULL. `unsigned int` values are
-- taken modulo 2^32, indices of the array stay below its length.
pub mod Partition
pub mod Loop
pub mod Round
pub mod Parallel
pub mod Layout
pub mod Refinement
pub mod Rounds
pub mod Sorting
pub mod Split
pub mod Laws
use sysprogramming_examples.Prelude.{
  ℕ, zero, suc, ◌+◌, ◌-◌, ◌*◌, ◌/◌, ◌%◌, ◌^◌, ◌==◌, not, ◌&&◌, List, [], ◌∷◌, Option, none, some,
  is_nonpos, leb, ltb, if◌then◌else◌,
}
use sysprogramming_examples.Prelude.Run.{Run, ok, fault, no_fuel, ◌>>=◌}
use sysprogramming_examples.Memory.{load, store, move_block}
use sysprogramming_examples.SortCommon.{CompareFun3}

-- `struct sortable_data`, without the size of an element.
pub record SortableData : Type 0 where
  pub base : Option ℕ
  pub nmemb : ℕ

-- The loop over `i` of psort_r that fills `segments`, with `rounds` = thread_count - i. A failing
-- assertion is a fault.
pub partition_loop : (rounds i thread_count rest_count rest_len ptr : ℕ) → Run (List SortableData)
partition_loop zero i thread_count rest_count rest_len ptr = ok []
partition_loop (suc rounds) i thread_count rest_count rest_len ptr =
    let len_per_thread = rest_len / rest_count in
    let more : Run (List SortableData) = do
      segments ←
          partition_loop rounds (i + 1) thread_count (rest_count - 1) (rest_len - len_per_thread)
            (ptr + len_per_thread)
      ok (record { base = some ptr; nmemb = len_per_thread } ∷ segments)
    in if (i == thread_count - 1) && not (rest_len == len_per_thread) then fault else more

-- `segments` for `nmemb` elements from index 0 on, after `assert(thread_count > 0)`.
unfoldable pub partition : (nmemb thread_count : ℕ) → Run (List SortableData)
unfolding partition_loop
partition nmemb thread_count =
    let segments = partition_loop thread_count 0 thread_count thread_count nmemb 0 in
    if ltb 0 thread_count then segments else fault

module _ {ℓ κ} {A : Type ℓ} {M : Type κ} where
  -- `while (i+j < total_len)`: `memory` is read at `left` and `right`, `merge_data` is written at
  -- `target`. `k`, which is counted and not used, is left out.
  unfoldable pub psort_merge_loop :
      (fuel : ℕ)
      → List A
      → CompareFun3 A M
      → M
      → (m n i j target left right : ℕ) → List A
      → Run (List A)
  psort_merge_loop zero memory compare arg m n i j target left right merge_data = no_fuel
  psort_merge_loop (suc fuel) memory compare arg m n i j target left right merge_data =
      let copy_right : Run (List A) = do
        d ← move_block merge_data target memory right (n - j)
        psort_merge_loop fuel memory compare arg m n i n (target + (n - j)) left right d
      in let copy_left : Run (List A) = do
        d ← move_block merge_data target memory left (m - i)
        psort_merge_loop fuel memory compare arg m n m j (target + (m - i)) left right d
        in let take_left : A → Run (List A) = λ x. do
          d ← store merge_data target x
          psort_merge_loop fuel memory compare arg m n (i + 1) j (target + 1) (left + 1) right d
          in let take_right : A → Run (List A) = λ y. do
            d ← store merge_data target y
            psort_merge_loop fuel memory compare arg m n i (j + 1) (target + 1) left (right + 1) d
            in let choose : Run (List A) = do
              x ← load memory left
              y ← load memory right
              if is_nonpos (compare x y arg) then take_left x else take_right y
              in if ltb (i + j) (m + n)
                then (if leb m i then copy_right else if leb n j then copy_left else choose)
                else ok merge_data

  -- The merge of the segments `idx` and `other_idx`, in the memory and in `segments`. `malloc` gives
  -- `merge_data`, with whatever it holds. A NULL pointer that is read is a fault.
  unfoldable pub merge_segments :
      (malloc : ℕ → List A)
      → CompareFun3 A M
      → M
      → (idx other_idx : ℕ) → List A
      → List SortableData
      → Run (List A × List SortableData)
  merge_segments malloc compare arg idx other_idx memory segments =
      let merge_at : ℕ → ℕ → ℕ → ℕ → Run (List A × List SortableData) = λ left m right n. do
        d ← psort_merge_loop (suc (m + n)) memory compare arg m n 0 0 0 left right (malloc (m + n))
        merged ← move_block memory left d 0 (m + n)
        segments' ← store segments idx (record { base = some left; nmemb = m + n })
        segments'' ← store segments' other_idx (record { base = none; nmemb = 0 })
        ok (merged, segments'')
      in do
        own ← load segments idx
        other ← load segments other_idx
        elim own.base [
          | none ↦ fault
          | some left ↦ elim other.base [
            | none ↦ fault
            | some right ↦ merge_at left own.nmemb right other.nmemb
          ]
        ]

  -- What thread `idx` does after the barrier of a round.
  unfoldable pub thread_round :
      (malloc : ℕ → List A)
      → CompareFun3 A M
      → M
      → (thread_count idx step : ℕ) → List A
      → List SortableData
      → Run (List A × List SortableData)
  thread_round malloc compare arg thread_count idx step memory segments =
      let other_idx = (idx + step) % 2 ^ 32 in
      if (idx % ((2 * step) % 2 ^ 32) == 0) && ltb other_idx thread_count
      then merge_segments malloc compare arg idx other_idx memory segments
      else ok (memory, segments)
