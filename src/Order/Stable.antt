-- ===== src/Order/Stable.antt =====
-- Laws of `select`, for the order of elements that compare equal.
use mathlib.Core.List.Perm
use sysprogramming_examples.Prelude.{
  ◌≡◌, refl, ◌∙◌, Bool, true, false, List, [], ◌∷◌, ◌++◌, Perm, arith, is_pos,
}
use sysprogramming_examples.SortCommon.{CompareFun3}
use sysprogramming_examples.Order.{All, Le, IsOrder, same, select, KeepsOrder, StablySorts}

module _ {ℓ} {A : Type ℓ} (p : A → Bool) where
  pub select-append : (xs ys : List A) → select p (xs ++ ys) ≡ select p xs ++ select p ys
  select-append [] ys = refl
  select-append (x ∷ xs) ys = ground (arith, select-append xs ys)

  pub select_none : (xs : List A) → All (λ x. p x ≡ false) xs → select p xs ≡ []
  select_none [] h = refl
  select_none (x ∷ xs) h = ground (arith, select_none xs h.1)

module _ {ℓ κ} {A : Type ℓ} {M : Type κ} {compare : CompareFun3 A M} {arg : M} where
  -- Sorting what a stable rearrangement of `a` holds sorts `a`.
  pub StablySorts-from :
      {a b c : List A}
      → Perm b a
      → KeepsOrder compare arg a b
      → StablySorts compare arg b c
      → StablySorts compare arg a c
  StablySorts-from p k s = record {
    sorts = record { sorted = s.sorts.sorted; perm = Perm.trans s.sorts.perm p };
    stable = λ x. s.stable x ∙ k x;
  }

module _ {ℓ κ} {A : Type ℓ} {M : Type κ} {compare : CompareFun3 A M} {arg : M}
    (o : IsOrder compare arg) where
  -- What is not below `x` is not the same as what is below `x`.
  differs :
      (x y z w : A)
      → is_pos (compare y x arg) ≡ true
      → Le compare arg y w
      → same compare arg z x ≡ true
      → same compare arg z w ≡ false
  differs x y z w above below e =
      ground (arith, o.trans y w z below, o.trans y z x, o.flip z w, o.flip z x)

  -- An element that is greater than `x` and all that follows it do not compare equal to `x`.
  pub same-above :
      (x y z : A) (ys : List A)
      → is_pos (compare y x arg) ≡ true
      → All (Le compare arg y) ys
      → same compare arg z x ≡ true
      → All (λ w. same compare arg z w ≡ false) ys
  same-above x y z [] above below e = tt
  same-above x y z (w ∷ ys) above below e =
      (differs x y z w above below.0 e, same-above x y z ys above below.1 e)
