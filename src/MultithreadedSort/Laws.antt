-- ===== src/MultithreadedSort/Laws.antt =====
-- The threads merge as a tree of merged blocks does.

use sysprogramming_examples.Prelude.{
  ℕ, ◌≡◌, inl, inr, refl, sym, ap, ◌∙◌, true, false, List, [], ◌∷◌, arith, is_pos, Bool-cases,
}
use sysprogramming_examples.SortCommon.{CompareFun3, strcmp, compare_str_full}
use sysprogramming_examples.Order.{IsSorted, Le}
use sysprogramming_examples.Order.Callbacks.{compare_str_full-IsOrder}
use sysprogramming_examples.Order.Merge.{
  merge, merge_nil, nil_merge, merge_left, merge_right, merge-perm, merge-IsSorted,
}
use sysprogramming_examples.MergeTree.{IsCombine, join_thread, join_round}
use sysprogramming_examples.MultithreadedSort.{merge_strings, merge_thread, merge_round}

abbrev pub str_compare : CompareFun3 (List ℕ) ℕ
str_compare = compare_str_full

-- The strings are in the order of `strcmp`.
abbrev pub IsOrdered : List (List ℕ) → Type 0
IsOrdered = IsSorted (Le str_compare 0)

str_compare_is : (x y : List ℕ) → str_compare x y 0 ≡ strcmp x y
unfolding compare_str_full
str_compare_is x y = refl

take_right :
    (x y : List ℕ) (l r : List (List ℕ))
    → is_pos (strcmp x y) ≡ true
    → merge_strings (x ∷ l) (y ∷ r) ≡ y ∷ merge_strings (x ∷ l) r
unfolding merge_strings
take_right x y l r e = ground arith

take_left :
    (x y : List ℕ) (l r : List (List ℕ))
    → is_pos (strcmp x y) ≡ false
    → merge_strings (x ∷ l) (y ∷ r) ≡ x ∷ merge_strings l (y ∷ r)
unfolding merge_strings
take_left x y l r e = ground arith

merge_strings-merge : (l r : List (List ℕ)) → merge_strings l r ≡ merge str_compare 0 l r
unfolding merge_strings
merge_strings-merge [] r = sym (nil_merge str_compare 0 r)
merge_strings-merge (x ∷ l) [] = sym (merge_nil str_compare 0 (x ∷ l))
merge_strings-merge (x ∷ l) (y ∷ r) = elim (Bool-cases (is_pos (strcmp x y))) [
  | inl e ↦
      take_right x y l r e
      ∙ ap (◌∷◌ y) (merge_strings-merge (x ∷ l) r)
      ∙ sym (merge_right str_compare 0 x y l r (ap is_pos (str_compare_is x y) ∙ e))
  | inr e ↦
      take_left x y l r e
      ∙ ap (◌∷◌ x) (merge_strings-merge l (y ∷ r))
      ∙ sym (merge_left str_compare 0 x y l r (ap is_pos (str_compare_is x y) ∙ e))
]

-- What a merge of two segments promises.
pub merge_strings-IsCombine : IsCombine IsOrdered merge_strings
merge_strings-IsCombine = record {
  nil = tt;
  keeps = λ l r hl hr.
      rw (merge_strings-merge l r) (merge-IsSorted (compare_str_full-IsOrder 0) l r hl hr);
  perm = λ l r. rw (merge_strings-merge l r) (merge-perm str_compare 0 l r);
}

pub merge_round-join_round :
    (order : List ℕ) (n s : ℕ) (segments : List (List (List ℕ)))
    → merge_round order n s segments ≡ join_round merge_strings order n s segments
unfolding merge_round merge_thread join_round join_thread
merge_round-join_round [] n s segments = refl
merge_round-join_round (idx ∷ order) n s segments =
    merge_round-join_round order n s (merge_thread n s idx segments)
