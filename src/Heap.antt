-- ===== src/Heap.antt =====
-- What posix/lib/hsort.c and posix/lib/ternary-hsort.c share: the loop of `sift_down`, for a given
-- choice of the element to swap with, and the loops of `heapify` and `hsort_r`, for a given
-- `sift_down`. An arity appears only in the two modules of these files.
pub mod Order
pub mod Pick
pub mod Sift
pub mod Sort
use sysprogramming_examples.Prelude.{ℕ, zero, suc, ◌+◌, ◌-◌, List, is_neg, leb, ◌==◌, if◌then◌else◌}
use sysprogramming_examples.Prelude.Run.{Run, ok, no_fuel, ◌>>=◌}
use sysprogramming_examples.Memory.{load}
use sysprogramming_examples.SortCommon.{CompareFun3, swap_elements}

module _ {ℓ κ} {A : Type ℓ} {M : Type κ} where
  -- `if (compare(swap_ptr, child_ptr, arg) < 0) swap = child;`
  unfoldable pub greater : List A → (swap child : ℕ) → CompareFun3 A M → M → Run ℕ
  greater a swap child compare arg = do
    x ← load a swap
    y ← load a child
    ok (if is_neg (compare x y arg) then child else swap)

module _ {ℓ} {A : Type ℓ} where
  -- `while (TRUE)`: `pick` is the part of the body that computes `swap`.
  unfoldable pub sift_loop :
      (pick : List A → ℕ → Run ℕ) → (fuel : ℕ) → List A → (root : ℕ) → Run (List A)
  sift_loop pick zero a root = no_fuel
  sift_loop pick (suc fuel) a root = do
    swap ← pick a root
    let descend = swap_elements a root swap >>= λ b. sift_loop pick fuel b swap
    if swap == root then ok a else descend

  -- `for (long i = start; i >= 0; i--)`, with `rounds` = i + 1
  unfoldable pub heapify_loop :
      (sift_down : List A → (start max_index : ℕ) → Run (List A))
      → (rounds : ℕ) → List A
      → (max_index : ℕ) → Run (List A)
  heapify_loop sift_down zero a max_index = ok a
  heapify_loop sift_down (suc i) a max_index = do
    b ← sift_down a i max_index
    heapify_loop sift_down i b max_index

  -- `for (end = nmemb - 1; end > 0; end--)`
  unfoldable pub sort_loop :
      (sift_down : List A → (start max_index : ℕ) → Run (List A))
      → (end : ℕ) → List A
      → Run (List A)
  sort_loop sift_down zero a = ok a
  sort_loop sift_down (suc end) a = do
    b ← swap_elements a 0 (suc end)
    c ← sift_down b 0 end
    sort_loop sift_down end c
