-- ===== src/Memory/Index.antt =====
-- Elements by index, with `d` for what lies outside, and the exchange of two of them.
use mathlib.Core.List.Perm
use sysprogramming_examples.Prelude.{
  ℕ, zero, suc, ◌<◌, ◌≡◌, refl, ◌∙◌, List, [], ◌∷◌, Perm, arith, ◌==◌, if◌then◌else◌, lt→ltb,
}
use sysprogramming_examples.Prelude.Run.{ok}
use sysprogramming_examples.Memory.{length, get_or, set, load, store}
use sysprogramming_examples.Memory.Laws.{length-set}
use sysprogramming_examples.SortCommon.{swap_elements}

module _ {ℓ} {A : Type ℓ} (d : A) where
  pub load-get_or : (a : List A) (i : ℕ) → i < length a → load a i ≡ ok (get_or a i d)
  unfolding load
  load-get_or [] i h = absurd (omega arith)
  load-get_or (x ∷ a) zero h = refl
  load-get_or (x ∷ a) (suc i) h = load-get_or a i (omega arith)

  pub get_or-set :
      (a : List A) (i j : ℕ) (v : A)
      → i < length a
      → get_or (set a i v) j d ≡ (if i == j then v else get_or a j d)
  get_or-set [] i j v h = absurd (omega arith)
  get_or-set (x ∷ a) zero zero v h = refl
  get_or-set (x ∷ a) zero (suc j) v h = ground arith
  get_or-set (x ∷ a) (suc i) zero v h = ground arith
  get_or-set (x ∷ a) (suc i) (suc j) v h = ground (arith, get_or-set a i j v)

  pub exchange : List A → ℕ → ℕ → List A
  exchange a i j = set (set a i (get_or a j d)) j (get_or a i d)

  pub length-exchange : (a : List A) (i j : ℕ) → length (exchange a i j) ≡ length a
  unfolding exchange
  length-exchange a i j =
      length-set (set a i (get_or a j d)) j (get_or a i d) ∙ length-set a i (get_or a j d)

  -- A write takes the old element out and puts the new one in.
  set-perm : (v : A) (a : List A) (i : ℕ) → i < length a → Perm (get_or a i d ∷ set a i v) (v ∷ a)
  set-perm v (x ∷ a) zero inside = Perm.swap v x a
  set-perm v [] i inside = absurd (omega arith)
  set-perm v (x ∷ a) (suc i) inside =
      Perm.trans (Perm.swap x (get_or a i d) (set a i v))
        (Perm.trans (Perm.cons x (set-perm v a i (omega arith))) (Perm.swap v x a))

  module _ (a : List A) (i j : ℕ) (hi : i < length a) (hj : j < length a) where
    pub swap_elements-exchange : swap_elements a i j ≡ ok (exchange a i j)
    unfolding swap_elements exchange store
    swap_elements-exchange = rw (
      load-get_or a i hi,
      load-get_or a j hj,
      lt→ltb i (length a) hi,
      lt→ltb j (length (set a i (get_or a j d))) (omega (arith, length-set a i (get_or a j d))),
    )

    pub get_or-exchange :
        (c : ℕ)
        → get_or (exchange a i j) c d
          ≡ (if j == c then get_or a i d else if i == c then get_or a j d else get_or a c d)
    unfolding exchange
    get_or-exchange c =
        let inside : j < length (set a i (get_or a j d)) =
          omega (arith, length-set a i (get_or a j d)) in
        rw (
          get_or-set (set a i (get_or a j d)) j c (get_or a i d) inside,
          get_or-set a i c (get_or a j d) hi,
        )

    pub exchange-perm : Perm (exchange a i j) a
    unfolding exchange
    exchange-perm =
        let b = set a i (get_or a j d) in
        let old : get_or b j d ≡ get_or a j d = ground (arith, get_or-set a i j (get_or a j d)) in
        let inside : j < length b = omega (arith, length-set a i (get_or a j d)) in
        Perm.cons_inv (
          Perm.trans (rw old at (set-perm (get_or a i d) b j inside))
            (set-perm (get_or a j d) a i hi))
