-- ===== src/Order.antt =====
-- What a comparison function promises to the sort functions, and what they promise in return.
pub mod Laws
pub mod Stable
pub mod Merge
pub mod Callbacks
pub mod Unique
use sysprogramming_examples.Prelude.{
  ℕ, ◌≡◌, Bool, true, false, not, ◌&&◌, List, [], ◌∷◌, Perm, ℤ, is_neg, is_pos, is_zero,
  if◌then◌else◌,
}
use sysprogramming_examples.SortCommon.{CompareFun3}

-- `P` holds of every element.
abbrev pub All {ℓ κ} : {A : Type ℓ} → (A → Type κ) → List A → Type κ
All P [] = Unit
All P (x ∷ xs) = P x × All P xs

-- Every earlier element is related to every later one.
abbrev pub IsSorted {ℓ κ} : {A : Type ℓ} → (A → A → Type κ) → List A → Type κ
IsSorted R [] = Unit
IsSorted R (x ∷ xs) = All (R x) xs × IsSorted R xs

-- The elements that pass a test, in their order.
abbrev pub select {ℓ} : {A : Type ℓ} → (A → Bool) → List A → List A
select p [] = []
select p (x ∷ xs) = if p x then x ∷ select p xs else select p xs

module _ {ℓ κ} {A : Type ℓ} {M : Type κ} (compare : CompareFun3 A M) (arg : M) where
  -- `compare` does not say that `a` is the greater one.
  abbrev pub Le : A → A → Type 0
  Le a b = is_pos (compare a b arg) ≡ false

  -- `compare` takes `a` and `b` for equal.
  abbrev pub same : A → A → Bool
  same a b = is_zero (compare a b arg)

  -- The contract of `qsort`: the results are those of a total preorder.
  pub record IsOrder : Type ℓ where
    pub flip : (a b : A) → is_neg (compare a b arg) ≡ is_pos (compare b a arg)
    pub trans : (a b c : A) → Le a b → Le b c → Le a c

  -- `b` holds the elements of `a` in ascending order.
  pub record Sorts (a b : List A) : Type ℓ where
    pub sorted : IsSorted Le b
    pub perm : Perm b a

  -- Elements that compare equal keep their order.
  abbrev pub KeepsOrder : List A → List A → Type ℓ
  KeepsOrder a b = (x : A) → select (same x) b ≡ select (same x) a

  pub record StablySorts (a b : List A) : Type ℓ where
    pub sorts : Sorts a b
    pub stable : KeepsOrder a b
