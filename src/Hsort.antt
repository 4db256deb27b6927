-- ===== src/Hsort.antt =====
-- posix/lib/hsort.c: heapsort. Index arithmetic is taken modulo 2^64. `start` of `heapify` is below
-- 2^63, so that it keeps its value as a `long`. `sift_down` has fuel for `max_index` + 1 rounds, and
-- `root` grows in each.
pub mod Laws
use sysprogramming_examples.Prelude.{
  ℕ, zero, suc, ◌+◌, ◌-◌, ◌*◌, ◌/◌, ◌%◌, List, leb, ltb, if◌then◌else◌, size_mod,
}
use sysprogramming_examples.Prelude.Run.{Run, ok, ◌>>=◌}
use sysprogramming_examples.SortCommon.{CompareFun2, CompareFun3, compare_extend}
use sysprogramming_examples.Heap.{greater, sift_loop, heapify_loop, sort_loop}

-- The macros PARENT and LEFT, on a `size_t`.
pub parent : ℕ → ℕ
parent idx = ((idx + size_mod - 1) % size_mod) / 2

pub left : ℕ → ℕ
left idx = (2 * idx + 1) % size_mod

module _ {ℓ κ} {A : Type ℓ} {M : Type κ} where
  -- `swap` of a round of `sift_down`; the loop is left where it is `root`.
  pub pick_child : (max_index : ℕ) → CompareFun3 A M → M → List A → (root : ℕ) → Run ℕ
  pick_child max_index compare arg a root =
      let left_child = left root in
      let right_child = (left_child + 1) % size_mod in
      let body : Run ℕ = do
        swap ← greater a root left_child compare arg
        if leb right_child max_index then greater a swap right_child compare arg else ok swap
      in if ltb max_index left_child then ok root else body

  unfoldable pub sift_down : List A → (start max_index : ℕ) → CompareFun3 A M → M → Run (List A)
  sift_down base start max_index compare arg =
      sift_loop (pick_child max_index compare arg) (suc max_index) base start

  unfoldable pub heapify : List A → (nmemb : ℕ) → CompareFun3 A M → M → Run (List A)
  heapify base nmemb compare arg =
      let max_index = (nmemb + size_mod - 1) % size_mod in
      heapify_loop (λ a start max. sift_down a start max compare arg) (suc (parent max_index)) base
        max_index

  unfoldable pub hsort_r : List A → (nmemb : ℕ) → CompareFun3 A M → M → Run (List A)
  hsort_r base nmemb compare arg =
      let body : Run (List A) = do
        a ← heapify base nmemb compare arg
        sort_loop (λ b start max. sift_down b start max compare arg) (nmemb - 1) a
      in if leb nmemb 1 then ok base else body

unfoldable pub hsort {ℓ} : {A : Type ℓ} → List A → (nmemb : ℕ) → CompareFun2 A → Run (List A)
hsort base nmemb compare = hsort_r base nmemb compare_extend compare
