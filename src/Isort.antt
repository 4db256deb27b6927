-- ===== src/Isort.antt =====
-- posix/lib/isort.c: insertion sort. The empty loops over `k`, which only mark places for
-- assertions, and `size`, which only scales pointers, are left out.
pub mod Laws
use sysprogramming_examples.Prelude.{ℕ, zero, suc, ◌+◌, ◌-◌, List, is_pos, leb, if◌then◌else◌}
use sysprogramming_examples.Prelude.Run.{Run, ok, ◌>>=◌}
use sysprogramming_examples.Memory.{load, store, move_block}
use sysprogramming_examples.SortCommon.{CompareFun2, CompareFun3, compare_extend}

-- The branch in which a[j] > a[i]: the elements j, ..., i - 1 move up by one, a[i] goes to j.
shift {ℓ} : {A : Type ℓ} → List A → ℕ → ℕ → Run (List A)
shift a i j = do tmp ← load a i; b ← move_block a (j + 1) a j (i - j); store b j tmp

module _ {ℓ κ} {A : Type ℓ} {M : Type κ} where
  -- The loop over `j`, with `rounds` = i - j.
  insert_element : (rounds : ℕ) → List A → ℕ → ℕ → CompareFun3 A M → M → Run (List A)
  insert_element zero a i j compare arg = ok a
  insert_element (suc rounds) a i j compare arg = do
    aj ← load a j
    ai ← load a i
    let rest = insert_element rounds a i (j + 1) compare arg
    if is_pos (compare aj ai arg) then shift a i j else rest

  -- The loop over `i`, with `rounds` = nmemb - i.
  insert_all : (rounds : ℕ) → List A → ℕ → CompareFun3 A M → M → Run (List A)
  insert_all zero a i compare arg = ok a
  insert_all (suc rounds) a i compare arg = do
    b ← insert_element i a i 0 compare arg
    insert_all rounds b (i + 1) compare arg

  unfoldable pub isort_r : List A → (nmemb : ℕ) → CompareFun3 A M → M → Run (List A)
  unfolding insert_all insert_element shift
  isort_r base nmemb compare arg =
      if leb nmemb 1 then ok base else insert_all (nmemb - 1) base 1 compare arg

unfoldable pub isort {ℓ} : {A : Type ℓ} → List A → (nmemb : ℕ) → CompareFun2 A → Run (List A)
unfolding isort_r
isort base nmemb compare = isort_r base nmemb compare_extend compare
