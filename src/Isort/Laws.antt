-- ===== src/Isort/Laws.antt =====
-- Each round of the sort inserts one element behind the last one that is not greater.
use mathlib.Core.List.{append-nil, append_assoc, perm_middle}
use mathlib.Core.List.Perm
use sysprogramming_examples.Prelude.{
  ℕ, zero, suc, ◌+◌, ◌-◌, ◌≡◌, refl, sym, ap, ◌∙◌, List, [], ◌∷◌, ◌++◌, Perm, arith, is_pos,
  if◌then◌else◌, Bool-cases, inl, inr, lt→leb,
}
use sysprogramming_examples.Prelude.Run.{ok, Returns, Returns-weaken, returns}
use sysprogramming_examples.Memory.{length, take, drop, load, move_block}
use sysprogramming_examples.Memory.Laws.{Perm-length, length-append, take-append, drop-append}
use sysprogramming_examples.Memory.Access.{load-middle, store-middle, move_block_lem}
use sysprogramming_examples.SortCommon.{CompareFun3}
use sysprogramming_examples.Order.{KeepsOrder, IsSorted, Le, IsOrder, same, select, StablySorts}
use sysprogramming_examples.Order.Laws.{All-perm, Le_of_pos, Le_refl, All-Le_head}
use sysprogramming_examples.Order.Stable.{StablySorts-from, select-append, select_none, same-above}
use sysprogramming_examples.Isort.{shift, insert_element, insert_all, isort_r}

module _ {ℓ} {A : Type ℓ} where
  -- The elements j, ..., i - 1 are y and those of m; each is copied one place up.
  moved :
      (l : List A) (y : A) (m : List A) (x : A) (r : List A) (i j : ℕ)
      → j ≡ length l
      → i ≡ length l + length (y ∷ m)
      → let a = l ++ (y ∷ (m ++ x ∷ r)) in
        move_block a (j + 1) a j (i - j) ≡ ok (l ++ (y ∷ y ∷ (m ++ r)))
  moved l y m x r i j hj hi =
      let a = l ++ (y ∷ (m ++ x ∷ r)) in
      let size = length-append l (y ∷ (m ++ x ∷ r)) in
      let size' = length-append m (x ∷ r) in
      let front : take (j + 1) a ≡ l ++ y ∷ [] =
        ap (take (j + 1)) (sym (append_assoc l (y ∷ []) (m ++ x ∷ r)))
        ∙ take-append (j + 1) (l ++ y ∷ []) (m ++ x ∷ r)
            (omega (arith, length-append l (y ∷ []))) in
      let copied : take (i - j) (drop j a) ≡ y ∷ m =
        ap (take (i - j)) (drop-append j l (y ∷ (m ++ x ∷ r)) hj)
        ∙ take-append (i - j) (y ∷ m) (x ∷ r) (omega arith) in
      let back : drop (j + 1 + (i - j)) a ≡ r =
        ap (drop (j + 1 + (i - j))) (simp append_assoc)
        ∙ drop-append (j + 1 + (i - j)) (l ++ (y ∷ (m ++ x ∷ []))) r
            (omega (arith, length-append l (y ∷ (m ++ x ∷ [])), length-append m (x ∷ []))) in
      move_block_lem a (j + 1) a j (i - j) (omega arith) (omega arith)
      ∙ rw (front, copied, back) (simp append_assoc)

  -- The block move and the two copies put a[i] before a[j].
  shift_lem :
      (l : List A) (y : A) (m : List A) (x : A) (r : List A) (i j : ℕ)
      → j ≡ length l
      → i ≡ length l + length (y ∷ m)
      → shift (l ++ (y ∷ (m ++ x ∷ r))) i j ≡ ok (l ++ (x ∷ y ∷ (m ++ r)))
  unfolding shift
  shift_lem l y m x r i j hj hi =
      let found : load (l ++ (y ∷ (m ++ x ∷ r))) i ≡ ok x =
        ap (λ b. load b i) (sym (append_assoc l (y ∷ m) (x ∷ r)))
        ∙ load-middle i (l ++ y ∷ m) x r (omega (arith, length-append l (y ∷ m))) in
      rw (found, moved l y m x r i j hj hi) (store-middle j l y x (y ∷ (m ++ r)) hj)

module _ {ℓ κ} {A : Type ℓ} {M : Type κ} (compare : CompareFun3 A M) (arg : M) where
  insert : A → List A → List A
  insert x [] = x ∷ []
  insert x (y ∷ m) = if is_pos (compare y x arg) then x ∷ y ∷ m else y ∷ insert x m

  insert_element-insert :
      (l m : List A) (x : A) (r : List A) (rounds i j : ℕ)
      → rounds ≡ length m
      → j ≡ length l
      → i ≡ length l + length m
      → insert_element rounds (l ++ (m ++ x ∷ r)) i j compare arg ≡ ok (l ++ (insert x m ++ r))
  unfolding insert_element insert
  insert_element-insert l [] x r zero i j hr hj hi = refl
  insert_element-insert l [] x r (suc rounds) i j hr hj hi = absurd (omega arith)
  insert_element-insert l (y ∷ m) x r zero i j hr hj hi = absurd (omega arith)
  insert_element-insert l (y ∷ m) x r (suc rounds) i j hr hj hi =
      let here : load (l ++ (y ∷ (m ++ x ∷ r))) j ≡ ok y = load-middle j l y (m ++ x ∷ r) hj in
      let new : load (l ++ (y ∷ (m ++ x ∷ r))) i ≡ ok x =
        ap (λ b. load b i) (sym (append_assoc l (y ∷ m) (x ∷ r)))
        ∙ load-middle i (l ++ y ∷ m) x r (omega (arith, length-append l (y ∷ m))) in
      let rest : insert_element rounds (l ++ (y ∷ (m ++ x ∷ r))) i (j + 1) compare arg
          ≡ ok (l ++ (y ∷ (insert x m ++ r))) =
        ap (λ b. insert_element rounds b i (j + 1) compare arg)
          (sym (append_assoc l (y ∷ []) (m ++ x ∷ r)))
        ∙ insert_element-insert (l ++ y ∷ []) m x r rounds i (j + 1) (omega arith)
            (omega (arith, length-append l (y ∷ []))) (omega (arith, length-append l (y ∷ [])))
        ∙ ap ok (append_assoc l (y ∷ []) (insert x m ++ r)) in
      rw (here, new)
        (elim (Bool-cases (is_pos (compare y x arg))) [
          | inl e ↦ rw (e, insert) (shift_lem l y m x r i j hj hi)
          | inr e ↦ rw (e, insert) rest
        ])

  insert-perm : (x : A) (m : List A) → Perm (insert x m) (x ∷ m)
  unfolding insert
  insert-perm x [] = Perm.rfl
  insert-perm x (y ∷ m) = elim (Bool-cases (is_pos (compare y x arg))) [
    | inl e ↦ rw (e, insert) Perm.rfl
    | inr e ↦ rw (e, insert) (Perm.trans (Perm.cons y (insert-perm x m)) (Perm.swap x y m))
  ]

module _ {ℓ κ} {A : Type ℓ} {M : Type κ} {compare : CompareFun3 A M} {arg : M}
    (o : IsOrder compare arg) where
  insert-IsSorted :
      (x : A) (m : List A)
      → IsSorted (Le compare arg) m
      → IsSorted (Le compare arg) (insert compare arg x m)
  unfolding insert
  insert-IsSorted x [] s = (tt, tt)
  insert-IsSorted x (y ∷ m) s = elim (Bool-cases (is_pos (compare y x arg))) [
    | inl e ↦ rw (e, insert) ((Le_of_pos o y x e, All-Le_head o x y m (Le_of_pos o y x e) s.0), s)
    | inr e ↦
        rw (e, insert)
          (
            All-perm (Le compare arg y) (λ w. hlevel) (Perm.symm (insert-perm compare arg x m))
                (e, s.0),
            insert-IsSorted x m s.1,
          )
  ]

  -- An element is inserted behind those that compare equal to it.
  select-insert :
      (z x : A) (m : List A)
      → IsSorted (Le compare arg) m
      → select (same compare arg z) (insert compare arg x m)
        ≡ select (same compare arg z) (m ++ x ∷ [])
  unfolding insert
  select-insert z x [] s = refl
  select-insert z x (y ∷ m) s = elim (Bool-cases (is_pos (compare y x arg))) [
    | inl e ↦
        rw (e, insert)
          (elim (Bool-cases (same compare arg z x)) [
            | inl k ↦
                let none_same = same-above o x y z (y ∷ m) e (Le_refl o y, s.0) k in
                ground (
                  arith,
                  none_same.0,
                  select_none (same compare arg z) m none_same.1,
                  select-append (same compare arg z) m (x ∷ []),
                )
            | inr k ↦ ground (
              arith,
              select-append (same compare arg z) m (x ∷ []),
              append-nil (select (same compare arg z) m),
            )
          ])
    | inr e ↦ rw (e, insert) (ground (arith, select-insert z x m s.1))
  ]

  -- One round: the sorted elements before x and x are now sorted.
  round :
      (x : A) (done r : List A)
      → IsSorted (Le compare arg) done
      → Perm (insert compare arg x done ++ r) (done ++ x ∷ r)
        × KeepsOrder compare arg (done ++ x ∷ r) (insert compare arg x done ++ r)
  round x done r s =
      let same_items =
        Perm.trans (Perm.append_right r (insert-perm compare arg x done))
          (Perm.symm (perm_middle done r)) in
      (
        same_items,
        λ z.
            let p = same compare arg z in
            select-append p (insert compare arg x done) r
            ∙ ap (λ l. l ++ select p r) (select-insert z x done s)
            ∙ sym (select-append p (done ++ x ∷ []) r)
            ∙ ap (select p) (append_assoc done (x ∷ []) r),
      )

  -- Invariant of the outer loop: the elements with an index below i are sorted.
  insert_all-StablySorts :
      (rounds : ℕ) (done rest : List A) (i : ℕ)
      → rounds ≡ length rest
      → i ≡ length done
      → IsSorted (Le compare arg) done
      → Returns
          (StablySorts compare arg (done ++ rest))
          (insert_all rounds (done ++ rest) i compare arg)
  unfolding insert_all
  insert_all-StablySorts zero done [] i hr hi s =
      rw (append-nil done)
        (returns (record { sorts = record { sorted = s; perm = Perm.rfl }; stable = λ x. refl }))
  insert_all-StablySorts zero done (x ∷ r) i hr hi s = absurd (omega arith)
  insert_all-StablySorts (suc rounds) done [] i hr hi s = absurd (omega arith)
  insert_all-StablySorts (suc rounds) done (x ∷ r) i hr hi s =
      let (items, kept) = round x done r s in
      let size = Perm-length (insert-perm compare arg x done) in
      rw (insert_element-insert compare arg [] done x r i i 0 hi refl (omega arith)) (
        Returns-weaken (λ b. StablySorts-from items kept)
          (insert_all-StablySorts rounds (insert compare arg x done) r (i + 1) (omega arith)
            (omega arith) (insert-IsSorted x done s)))

  -- Insertion sort of the `nmemb` elements, by a comparison that is a total preorder, returns: no access leaves the array, the elements are
  -- those of before in ascending order, and elements that compare equal keep their order.
  pub isort_r-StablySorts :
      (a : List A) → Returns (StablySorts compare arg a) (isort_r a (length a) compare arg)
  unfolding isort_r
  isort_r-StablySorts [] =
      returns (record { sorts = record { sorted = tt; perm = Perm.rfl }; stable = λ x. refl })
  isort_r-StablySorts (x ∷ []) =
      returns (record { sorts = record { sorted = (tt, tt); perm = Perm.rfl }; stable = λ x. refl })
  isort_r-StablySorts (x ∷ y ∷ a) = rw (lt→leb (suc (suc (length a))) 1 (omega arith)) (
      insert_all-StablySorts (suc (suc (length a)) - 1) (x ∷ []) (y ∷ a) 1 (omega arith) refl
        (tt, tt))
