-- ===== src/TernaryHsort.antt =====
-- posix/lib/ternary-hsort.c: heapsort on a tree in which each node has three children. Index arithmetic is taken modulo 2^64. `start` of `ternary_heapify` is below
-- 2^63, so that it keeps its value as a `long`. `ternary_sift_down` has fuel for `max_index` + 1 rounds, and
-- `root` grows in each.
pub mod Laws
use sysprogramming_examples.Prelude.{
  ℕ, zero, suc, ◌+◌, ◌-◌, ◌*◌, ◌/◌, ◌%◌, List, leb, ltb, if◌then◌else◌, size_mod,
}
use sysprogramming_examples.Prelude.Run.{Run, ok, ◌>>=◌}
use sysprogramming_examples.SortCommon.{CompareFun2, CompareFun3, compare_extend}
use sysprogramming_examples.Heap.{greater, sift_loop, heapify_loop, sort_loop}

-- The macros PARENT, LEFT, MIDDLE and RIGHT, on a `size_t`.
pub parent : ℕ → ℕ
parent idx = ((idx + size_mod - 1) % size_mod) / 3

pub left : ℕ → ℕ
left idx = (3 * idx + 1) % size_mod

pub middle : ℕ → ℕ
middle idx = (3 * idx + 2) % size_mod

pub right : ℕ → ℕ
right idx = (3 * idx + 3) % size_mod

module _ {ℓ κ} {A : Type ℓ} {M : Type κ} where
  -- `swap` of a round of `ternary_sift_down`; the loop is left where it is `root`.
  pub pick_child : (max_index : ℕ) → CompareFun3 A M → M → List A → (root : ℕ) → Run ℕ
  pick_child max_index compare arg a root =
      let left_child = left root in
      let middle_child = middle root in
      let right_child = right root in
      let others : ℕ → Run ℕ = λ swap. do
        swap' ← greater a swap middle_child compare arg
        if leb right_child max_index then greater a swap' right_child compare arg else ok swap'
      in let body : Run ℕ = do
        swap ← greater a root left_child compare arg
        if leb middle_child max_index then others swap else ok swap
        in if ltb max_index left_child then ok root else body

  unfoldable pub ternary_sift_down :
      List A → (start max_index : ℕ) → CompareFun3 A M → M → Run (List A)
  ternary_sift_down base start max_index compare arg =
      sift_loop (pick_child max_index compare arg) (suc max_index) base start

  unfoldable pub ternary_heapify : List A → (nmemb : ℕ) → CompareFun3 A M → M → Run (List A)
  ternary_heapify base nmemb compare arg =
      let max_index = (nmemb + size_mod - 1) % size_mod in
      heapify_loop (λ a start max. ternary_sift_down a start max compare arg)
        (suc (parent max_index)) base max_index

  unfoldable pub ternary_hsort_r : List A → (nmemb : ℕ) → CompareFun3 A M → M → Run (List A)
  ternary_hsort_r base nmemb compare arg =
      let body : Run (List A) = do
        a ← ternary_heapify base nmemb compare arg
        sort_loop (λ b start max. ternary_sift_down b start max compare arg) (nmemb - 1) a
      in if leb nmemb 1 then ok base else body

unfoldable pub ternary_hsort {ℓ} :
    {A : Type ℓ} → List A → (nmemb : ℕ) → CompareFun2 A → Run (List A)
ternary_hsort base nmemb compare = ternary_hsort_r base nmemb compare_extend compare
