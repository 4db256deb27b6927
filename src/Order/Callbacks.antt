-- ===== src/Order/Callbacks.antt =====
-- The comparison functions of posix/lib/sort_common.c keep the contract of the sort functions.
use sysprogramming_examples.Prelude.{
  ℕ, ◌≡◌, refl, false, List, [], ◌∷◌, arith, ℤ, pos, negsuc, is_neg, is_pos,
}
use sysprogramming_examples.SortCommon.{compare_int_full, strcmp, compare_str_full}
use sysprogramming_examples.Order.{IsOrder}

module _ {κ} {M : Type κ} (arg : M) where
  int_flip : (a b : ℤ) → is_neg (compare_int_full a b arg) ≡ is_pos (compare_int_full b a arg)
  unfolding compare_int_full
  int_flip (pos m) (pos n) = ground arith
  int_flip (pos m) (negsuc n) = refl
  int_flip (negsuc m) (pos n) = refl
  int_flip (negsuc m) (negsuc n) = ground arith

  int_trans :
      (a b c : ℤ)
      → is_pos (compare_int_full a b arg) ≡ false
      → is_pos (compare_int_full b c arg) ≡ false
      → is_pos (compare_int_full a c arg) ≡ false
  unfolding compare_int_full
  int_trans (pos m) (pos n) (pos k) p q = ground arith
  int_trans (negsuc m) (negsuc n) (negsuc k) p q = ground arith
  int_trans (pos m) (negsuc n) c p q = absurd (ground arith)
  int_trans (pos m) (pos n) (negsuc k) p q = absurd (ground arith)
  int_trans (negsuc m) (pos n) (negsuc k) p q = absurd (ground arith)
  int_trans (negsuc m) (pos n) (pos k) p q = refl
  int_trans (negsuc m) (negsuc n) (pos k) p q = refl

  -- Comparing ints by `compare_int_full` is a total preorder.
  pub compare_int_full-IsOrder : IsOrder compare_int_full arg
  compare_int_full-IsOrder = record { flip = int_flip; trans = int_trans }

strcmp_flip : (s t : List ℕ) → is_neg (strcmp s t) ≡ is_pos (strcmp t s)
unfolding strcmp
strcmp_flip [] [] = refl
strcmp_flip [] (d ∷ t) = refl
strcmp_flip (c ∷ s) [] = refl
strcmp_flip (c ∷ s) (d ∷ t) = ground (arith, strcmp_flip s t)

strcmp_trans :
    (s t u : List ℕ)
    → is_pos (strcmp s t) ≡ false
    → is_pos (strcmp t u) ≡ false
    → is_pos (strcmp s u) ≡ false
unfolding strcmp
strcmp_trans [] [] u p q = q
strcmp_trans [] (d ∷ t) [] p q = refl
strcmp_trans [] (d ∷ t) (e ∷ u) p q = refl
strcmp_trans (c ∷ s) [] u p q = absurd (ground arith)
strcmp_trans (c ∷ s) (d ∷ t) [] p q = absurd (ground arith)
strcmp_trans (c ∷ s) (d ∷ t) (e ∷ u) p q = ground (arith, strcmp_trans s t u)

-- Comparing strings by `compare_str_full` is a total preorder.
pub compare_str_full-IsOrder {κ} : {M : Type κ} (arg : M) → IsOrder compare_str_full arg
unfolding compare_str_full
compare_str_full-IsOrder arg = record { flip = strcmp_flip; trans = strcmp_trans }
