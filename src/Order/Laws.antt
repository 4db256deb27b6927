-- ===== src/Order/Laws.antt =====
-- Laws of `All` and `IsSorted`.
use mathlib.Core.Path.{subst}
use mathlib.Core.List.{Permᴰ}
use mathlib.Core.Logic.{∥∥₁_elim}
use sysprogramming_examples.Prelude.{◌≡◌, true, List, [], ◌∷◌, ◌++◌, Perm, arith, is_pos}
use mathlib.Core.HLevel.{×_prop}
use sysprogramming_examples.SortCommon.{CompareFun3}
use sysprogramming_examples.Order.{All, IsSorted, Le, IsOrder}

module _ {ℓ κ} {A : Type ℓ} (P : A → Type κ) where
  pub All-append : (xs ys : List A) → All P xs → All P ys → All P (xs ++ ys)
  All-append [] ys h k = k
  All-append (x ∷ xs) ys h k = (h.0, All-append xs ys h.1 k)

  pub All-append_left : (xs ys : List A) → All P (xs ++ ys) → All P xs
  All-append_left [] ys h = tt
  All-append_left (x ∷ xs) ys h = (h.0, All-append_left xs ys h.1)

  pub All-append_right : (xs ys : List A) → All P (xs ++ ys) → All P ys
  All-append_right [] ys h = h
  All-append_right (x ∷ xs) ys h = All-append_right xs ys h.1

  pub All-weaken {κ'} :
      (Q : A → Type κ') → ((x : A) → P x → Q x) → (xs : List A) → All P xs → All Q xs
  All-weaken Q k [] h = tt
  All-weaken Q k (x ∷ xs) h = (k x h.0, All-weaken Q k xs h.1)

  All-prop : ((x : A) → IsProp (P x)) → (xs : List A) → IsProp (All P xs)
  All-prop p [] = hlevel
  All-prop p (x ∷ xs) = ×_prop (p x) (All-prop p xs)

  All-Permᴰ : {xs ys : List A} → Permᴰ xs ys → All P xs → All P ys
  All-Permᴰ Permᴰ.nil h = h
  All-Permᴰ (Permᴰ.cons e p) h = (subst P e h.0, All-Permᴰ p h.1)
  All-Permᴰ (Permᴰ.swap e d) h = (subst P d h.1.0, (subst P e h.0, h.1.1))
  All-Permᴰ (Permᴰ.trans p q) h = All-Permᴰ q (All-Permᴰ p h)

  pub All-perm : ((x : A) → IsProp (P x)) → {xs ys : List A} → Perm xs ys → All P xs → All P ys
  All-perm p {ys} s h = ∥∥₁_elim s (All-prop p ys) (λ d. All-Permᴰ d h)

module _ {ℓ κ} {A : Type ℓ} (R : A → A → Type κ) where
  pub IsSorted-append :
      (xs ys : List A)
      → IsSorted R xs
      → IsSorted R ys
      → All (λ x. All (R x) ys) xs
      → IsSorted R (xs ++ ys)
  IsSorted-append [] ys s t h = t
  IsSorted-append (x ∷ xs) ys s t h =
      (All-append (R x) xs ys s.0 h.0, IsSorted-append xs ys s.1 t h.1)

  pub IsSorted-left : (xs ys : List A) → IsSorted R (xs ++ ys) → IsSorted R xs
  IsSorted-left [] ys s = tt
  IsSorted-left (x ∷ xs) ys s = (All-append_left (R x) xs ys s.0, IsSorted-left xs ys s.1)

module _ {ℓ κ} {A : Type ℓ} {M : Type κ} {compare : CompareFun3 A M} {arg : M}
    (o : IsOrder compare arg) where
  -- What is not above is below.
  pub Le_of_pos : (a b : A) → is_pos (compare a b arg) ≡ true → Le compare arg b a
  Le_of_pos a b h = ground (arith, o.flip b a)

  pub Le_refl : (a : A) → Le compare arg a a
  Le_refl a = ground (arith, o.flip a a)

  -- Below the head of a sorted list is below all of it.
  pub All-Le_head :
      (x y : A) (ys : List A)
      → Le compare arg x y
      → All (Le compare arg y) ys
      → All (Le compare arg x) ys
  All-Le_head x y ys h k = All-weaken _ _ (λ z. o.trans x y z h) ys k
