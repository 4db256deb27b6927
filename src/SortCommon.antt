-- ===== src/SortCommon.antt =====
-- posix/lib/sort_common.c and posix/include/sortcommon.h: the callbacks that the sort functions
-- take, the adapter for callbacks without a third parameter, and the exchange of two elements.
use sysprogramming_examples.Prelude.{
  ℕ, Bool, true, false, List, ltb, if◌then◌else◌, ℤ, pos, negsuc, [], ◌∷◌, ◌==◌,
}
use sysprogramming_examples.Prelude.Run.{Run, ◌>>=◌}
use sysprogramming_examples.Memory.{load, store}

abbrev pub CompareFun2 {ℓ} : Type ℓ → Type ℓ
CompareFun2 A = A → A → ℤ

abbrev pub CompareFun3 {ℓ κ} : Type ℓ → Type κ → Type (ℓ ⊔ κ)
CompareFun3 A M = A → A → M → ℤ

-- A metric gives the place of an element as a double.
abbrev pub MetricFun1 {ℓ κ} : Type ℓ → Type κ → Type (ℓ ⊔ κ)
MetricFun1 A Double = A → Double

abbrev pub MetricFun2 {ℓ κ μ} : Type ℓ → Type κ → Type μ → Type (ℓ ⊔ κ ⊔ μ)
MetricFun2 A Double M = A → M → Double

-- The 1-parameter function is the second argument.
abbrev pub metric_extend {ℓ κ} :
    {A : Type ℓ} {Double : Type κ} → MetricFun2 A Double (MetricFun1 A Double)
metric_extend element mem = mem element

-- The 2-parameter function is the third argument.
abbrev pub compare_extend {ℓ} : {A : Type ℓ} → CompareFun3 A (CompareFun2 A)
compare_extend left right mem = mem left right

-- Through a buffer, in the order of the three `memcpy` calls.
unfoldable pub swap_elements {ℓ} : {A : Type ℓ} → List A → ℕ → ℕ → Run (List A)
swap_elements a left_ptr right_ptr = do
  buff ← load a left_ptr
  right ← load a right_ptr
  b ← store a left_ptr right
  store b right_ptr buff

-- `left_val < right_val` of two ints
pub int_lt : ℤ → ℤ → Bool
int_lt (pos m) (pos n) = ltb m n
int_lt (pos m) (negsuc n) = false
int_lt (negsuc m) (pos n) = true
int_lt (negsuc m) (negsuc n) = ltb n m

-- `left_val == right_val` of two ints
pub int_eq : ℤ → ℤ → Bool
int_eq (pos m) (pos n) = m == n
int_eq (pos m) (negsuc n) = false
int_eq (negsuc m) (pos n) = false
int_eq (negsuc m) (negsuc n) = m == n

unfoldable pub compare_int_full {κ} : {M : Type κ} → CompareFun3 ℤ M
unfolding int_lt int_eq
compare_int_full left right ignored =
    if int_lt left right then negsuc 0 else if int_eq left right then pos 0 else pos 1

-- `strcmp`, of the bytes before the terminating 0: the sign is that of the first difference.
unfoldable pub strcmp : List ℕ → List ℕ → ℤ
strcmp [] [] = pos 0
strcmp [] (d ∷ t) = negsuc 0
strcmp (c ∷ s) [] = pos 1
strcmp (c ∷ s) (d ∷ t) = if ltb c d then negsuc 0 else if ltb d c then pos 1 else strcmp s t

-- The elements are pointers to strings; an element is the string that it points to.
unfoldable pub compare_str_full {κ} : {M : Type κ} → CompareFun3 (List ℕ) M
unfolding strcmp
compare_str_full left right ignored = strcmp left right
