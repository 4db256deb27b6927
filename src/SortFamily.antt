-- ===== src/SortFamily.antt =====
-- The sort functions of posix/lib compared with one another, and their variants for comparison
-- functions with two parameters.
use sysprogramming_examples.Prelude.{◌^◌, ◌≤◌, ◌≡◌, List, sym, ap, ◌∙◌}
use sysprogramming_examples.Prelude.Run.{Run, Returns-value}
use sysprogramming_examples.Memory.{length}
use sysprogramming_examples.SortCommon.{CompareFun3}
use sysprogramming_examples.Order.{IsOrder}
use sysprogramming_examples.Order.Unique.{StablySorts-unique}
use sysprogramming_examples.Isort.{isort_r}
use sysprogramming_examples.Isort.Laws.{isort_r-StablySorts}
use sysprogramming_examples.Msort.{msort_r}
use sysprogramming_examples.Msort.Laws.{msort_r-StablySorts}

module _ {ℓ κ} {A : Type ℓ} {M : Type κ} {compare : CompareFun3 A M} {arg : M}
    (o : IsOrder compare arg) where
  -- Insertion sort and merge sort by a total preorder leave the same array, element by element, for at
  -- most 2^62 elements and a scratch array of their number.
  pub isort_r-msort_r :
      (a scratch : List A)
      → length a ≤ 2 ^ 62
      → length scratch ≡ length a
      → isort_r a (length a) compare arg ≡ msort_r a (length a) compare arg scratch
  isort_r-msort_r a scratch h k =
      let (b, eb, sb) = Returns-value (isort_r-StablySorts o a) in
      let (c, ec, sc) = Returns-value (msort_r-StablySorts o a scratch h k) in
      eb ∙ ap Run.ok (StablySorts-unique o sb sc) ∙ sym ec
