-- ===== src/Order/Merge.antt =====
-- Merging two sorted lists, ties from the left one: what the merge loops of msort.c and psort.c
-- are proved to compute.
use mathlib.Core.List.{append-nil, perm_middle}
use mathlib.Core.List.Perm
use sysprogramming_examples.Prelude.{
  ◌≡◌, refl, sym, true, false, List, [], ◌∷◌, ◌++◌, Perm, arith, is_pos, Bool-cases, inl, inr,
}
use sysprogramming_examples.SortCommon.{CompareFun3}
use sysprogramming_examples.Order.{All, IsSorted, Le, IsOrder, same, select}
use sysprogramming_examples.Order.Laws.{All-append, All-perm, Le_of_pos, Le_refl, All-Le_head}
use sysprogramming_examples.Order.Stable.{select_none, same-above}

module _ {ℓ κ} {A : Type ℓ} {M : Type κ} (compare : CompareFun3 A M) (arg : M) where
  pub merge : List A → List A → List A
  merge [] r = r
  merge (x ∷ l) [] = x ∷ l
  merge (x ∷ l) (y ∷ r) = elim (is_pos (compare x y arg)) [
    | true ↦ y ∷ merge (x ∷ l) r
    | false ↦ x ∷ merge l (y ∷ r)
  ]

  pub merge_nil : (l : List A) → merge l [] ≡ l
  unfolding merge
  merge_nil [] = refl
  merge_nil (x ∷ l) = refl

  pub nil_merge : (l : List A) → merge [] l ≡ l
  unfolding merge
  nil_merge l = refl

  pub merge_right :
      (x y : A) (l r : List A)
      → is_pos (compare x y arg) ≡ true
      → merge (x ∷ l) (y ∷ r) ≡ y ∷ merge (x ∷ l) r
  unfolding merge
  merge_right x y l r e = ground arith

  pub merge_left :
      (x y : A) (l r : List A)
      → is_pos (compare x y arg) ≡ false
      → merge (x ∷ l) (y ∷ r) ≡ x ∷ merge l (y ∷ r)
  unfolding merge
  merge_left x y l r e = ground arith

  pub merge-perm : (l r : List A) → Perm (merge l r) (l ++ r)
  merge-perm [] r = rw (nil_merge r) Perm.rfl
  merge-perm (x ∷ l) [] = rw (merge_nil (x ∷ l), append-nil l) Perm.rfl
  merge-perm (x ∷ l) (y ∷ r) = elim (Bool-cases (is_pos (compare x y arg))) [
    | inl e ↦
        rw (merge_right x y l r e)
          (Perm.trans (Perm.cons y (merge-perm (x ∷ l) r)) (Perm.symm (perm_middle (x ∷ l) r)))
    | inr e ↦ rw (merge_left x y l r e) (Perm.cons x (merge-perm l (y ∷ r)))
  ]

module _ {ℓ κ} {A : Type ℓ} {M : Type κ} {compare : CompareFun3 A M} {arg : M}
    (o : IsOrder compare arg) where
  -- What is below both heads is below the merged list.
  below_merge :
      (x : A) (l r : List A)
      → All (Le compare arg x) l
      → All (Le compare arg x) r
      → All (Le compare arg x) (merge compare arg l r)
  below_merge x l r h k =
      All-perm (Le compare arg x) (λ w. hlevel) (Perm.symm (merge-perm compare arg l r))
        (All-append (Le compare arg x) l r h k)

  pub merge-IsSorted :
      (l r : List A)
      → IsSorted (Le compare arg) l
      → IsSorted (Le compare arg) r
      → IsSorted (Le compare arg) (merge compare arg l r)
  merge-IsSorted [] r s t = rw (nil_merge compare arg r) t
  merge-IsSorted (x ∷ l) [] s t = rw (merge_nil compare arg (x ∷ l)) s
  merge-IsSorted (x ∷ l) (y ∷ r) s t = elim (Bool-cases (is_pos (compare x y arg))) [
    | inl e ↦
        let le = Le_of_pos o x y e in
        rw (merge_right compare arg x y l r e) (
          below_merge y (x ∷ l) r (le, All-Le_head o y x l le s.0) t.0,
          merge-IsSorted (x ∷ l) r s t.1,
        )
    | inr e ↦
        rw (merge_left compare arg x y l r e) (
          below_merge x l (y ∷ r) s.0 (e, All-Le_head o x y r e t.0),
          merge-IsSorted l (y ∷ r) s.1 t,
        )
  ]

  -- Of elements that compare equal those of the left list come first.
  pub select-merge :
      (z : A) (l r : List A)
      → IsSorted (Le compare arg) l
      → select (same compare arg z) (merge compare arg l r)
        ≡ select (same compare arg z) l ++ select (same compare arg z) r
  select-merge z [] r s = rw (nil_merge compare arg r)
  select-merge z (x ∷ l) [] s =
      rw (merge_nil compare arg (x ∷ l)) (sym (append-nil (select (same compare arg z) (x ∷ l))))
  select-merge z (x ∷ l) (y ∷ r) s = elim (Bool-cases (is_pos (compare x y arg))) [
    | inl e ↦ rw (merge_right compare arg x y l r e) (elim (Bool-cases (same compare arg z y)) [
      | inl k ↦
          let nothing =
            select_none (same compare arg z) (x ∷ l)
              (same-above o y x z (x ∷ l) e (Le_refl o x, s.0) k) in
          rw (k, select-merge z (x ∷ l) r s, nothing)
      | inr k ↦ rw (k, select-merge z (x ∷ l) r s)
    ])
    | inr e ↦ rw (merge_left compare arg x y l r e) (ground (arith, select-merge z l (y ∷ r) s.1))
  ]
