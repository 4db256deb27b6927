-- ===== src/Order/Unique.antt =====
-- A stable sort has one possible result.
use mathlib.Core.Path.{ap₂}
use mathlib.Core.List.Perm
use sysprogramming_examples.Prelude.{◌≡◌, sym, ◌∙◌, Bool, true, List, [], ◌∷◌, Perm, arith}
use sysprogramming_examples.SortCommon.{CompareFun3}
use sysprogramming_examples.Order.{IsSorted, Le, IsOrder, same, select, KeepsOrder, StablySorts}
use sysprogramming_examples.Order.Laws.{All-perm, Le_refl}

module _ {ℓ κ} {A : Type ℓ} {M : Type κ} {compare : CompareFun3 A M} {arg : M}
    (o : IsOrder compare arg) where
  -- The first elements of two sorted lists of the same elements compare equal.
  head_le :
      (x y : A) (b c : List A)
      → IsSorted (Le compare arg) (x ∷ b)
      → Perm (x ∷ b) (y ∷ c)
      → Le compare arg x y
  head_le x y b c s p = (All-perm (Le compare arg x) (λ w. hlevel) p (Le_refl o x, s.0)).0

  same_of_le : (x y : A) → Le compare arg x y → Le compare arg y x → same compare arg x y ≡ true
  same_of_le x y p q = ground (arith, o.flip x y)

  select_cancel :
      (p : A → Bool) (x : A) (b c : List A)
      → select p (x ∷ b) ≡ select p (x ∷ c)
      → select p b ≡ select p c
  select_cancel p x b c e = ground arith

  sorted_unique :
      (b c : List A)
      → IsSorted (Le compare arg) b
      → IsSorted (Le compare arg) c
      → Perm b c
      → KeepsOrder compare arg c b
      → b ≡ c
  sorted_unique [] c s t p k = Perm.nil-eq p
  sorted_unique (x ∷ b) [] s t p k = Perm.eq-nil p
  sorted_unique (x ∷ b) (y ∷ c) s t p k =
      let first = same_of_le x y (head_le x y b c s p) (head_le y x c b t (Perm.symm p)) in
      let self = same_of_le x x (Le_refl o x) (Le_refl o x) in
      let heads : x ≡ y = ground (arith, k x) in
      let tails = Perm.cons_inv (rw heads at p) in
      let kept : KeepsOrder compare arg c b =
        λ z. select_cancel (same compare arg z) y b c (rw heads at (k z)) in
      ap₂ ◌∷◌ heads (sorted_unique b c s.1 t.1 tails kept)

  -- Two results of stable sorts of the same elements are equal.
  pub StablySorts-unique :
      {a b c : List A} → StablySorts compare arg a b → StablySorts compare arg a c → b ≡ c
  StablySorts-unique {b} {c} s t =
      sorted_unique b c s.sorts.sorted t.sorts.sorted
        (Perm.trans s.sorts.perm (Perm.symm t.sorts.perm)) (λ x. s.stable x ∙ sym (t.stable x))
