-- ===== src/Tests/Sorting.antt =====
-- The sort functions on small arrays.
use sysprogramming_examples.Prelude.{ℕ, ◌≡◌, refl, List, [], ◌∷◌, ℤ, pos, negsuc, arith}
use sysprogramming_examples.Prelude.Run.{Run, Returns}
use sysprogramming_examples.Memory.{load, store, move_block}
use sysprogramming_examples.SortCommon.{
  CompareFun2, CompareFun3, compare_extend, compare_int_full, compare_str_full,
}
use sysprogramming_examples.Order.{IsOrder, Sorts, StablySorts}
use sysprogramming_examples.Order.Callbacks.{compare_int_full-IsOrder, compare_str_full-IsOrder}
use sysprogramming_examples.Isort.{isort_r}
use sysprogramming_examples.Isort.Laws.{isort_r-StablySorts}
use sysprogramming_examples.Msort.{msort_r}
use sysprogramming_examples.Msort.Laws.{msort_r-StablySorts}
use sysprogramming_examples.Hsort.{hsort_r}
use sysprogramming_examples.Hsort.Laws.{hsort_r-Sorts}
use sysprogramming_examples.TernaryHsort.{ternary_hsort_r}
use sysprogramming_examples.TernaryHsort.Laws.{ternary_hsort_r-Sorts}
use sysprogramming_examples.SortFamily.{isort_r-msort_r}

abbrev numbers : List ℤ
numbers = pos 3 ∷ negsuc 1 ∷ pos 7 ∷ pos 0 ∷ pos 3 ∷ []

abbrev in_order : List ℤ
in_order = negsuc 1 ∷ pos 0 ∷ pos 3 ∷ pos 3 ∷ pos 7 ∷ []

-- What the scratch array holds before.
abbrev zeros : List ℤ
zeros = pos 0 ∷ pos 0 ∷ pos 0 ∷ pos 0 ∷ pos 0 ∷ []

abbrev words : List (List ℕ)
words = (98 ∷ 97 ∷ []) ∷ (97 ∷ []) ∷ (98 ∷ []) ∷ []

abbrev int_compare : CompareFun3 ℤ ℕ
int_compare = compare_int_full

abbrev str_compare : CompareFun3 (List ℕ) ℕ
str_compare = compare_str_full

abbrev int_order : IsOrder int_compare 0
int_order = compare_int_full-IsOrder 0

abbrev int_compare2 : CompareFun2 ℤ
int_compare2 x y = int_compare x y 0

abbrev int_order2 : IsOrder compare_extend int_compare2
int_order2 = record { flip = int_order.flip; trans = int_order.trans }

isort_r-numbers : isort_r numbers 5 int_compare 0 ≡ Run.ok in_order
unfolding isort_r compare_int_full load move_block store
isort_r-numbers = refl

msort_r-numbers : msort_r numbers 5 int_compare 0 zeros ≡ Run.ok in_order
unfolding msort_r compare_int_full load move_block store
msort_r-numbers = refl

isort_r-StablySorts_example :
    Returns (StablySorts int_compare 0 numbers) (isort_r numbers 5 int_compare 0)
isort_r-StablySorts_example = isort_r-StablySorts int_order numbers

msort_r-StablySorts_example :
    Returns (StablySorts int_compare 0 numbers) (msort_r numbers 5 int_compare 0 zeros)
msort_r-StablySorts_example = msort_r-StablySorts int_order numbers zeros (omega arith) refl

hsort_r-Sorts_example : Returns (Sorts int_compare 0 numbers) (hsort_r numbers 5 int_compare 0)
hsort_r-Sorts_example = hsort_r-Sorts int_order numbers (omega arith)

ternary_hsort_r-Sorts_example :
    Returns (Sorts int_compare 0 numbers) (ternary_hsort_r numbers 5 int_compare 0)
ternary_hsort_r-Sorts_example = ternary_hsort_r-Sorts int_order numbers (omega arith)

isort_r-msort_r_example : isort_r numbers 5 int_compare 0 ≡ msort_r numbers 5 int_compare 0 zeros
isort_r-msort_r_example = isort_r-msort_r int_order numbers zeros (omega arith) refl

words_sorted : Returns (StablySorts str_compare 0 words) (isort_r words 3 str_compare 0)
words_sorted = isort_r-StablySorts (compare_str_full-IsOrder 0) words
