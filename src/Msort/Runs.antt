-- ===== src/Msort/Runs.antt =====
-- The state of the array between the passes: sorted blocks of `step` elements, the last of which
-- may be shorter.
use mathlib.Core.List.{append-nil}
use Prim.Native.Nat.{min}
use sysprogramming_examples.Prelude.{
  ℕ, ◌≤◌, ◌≡◌, refl, sym, ap, ◌⊎◌, inl, inr, List, [], ◌∷◌, ◌++◌, arith,
}
use sysprogramming_examples.Memory.{length}
use sysprogramming_examples.Memory.Laws.{length-append}
use sysprogramming_examples.Order.{IsSorted}

pub data Runs {ℓ κ} {A : Type ℓ} (R : A → A → Type κ) (step : ℕ) : List A → Type (ℓ ⊔ κ) where
  last : {t : List A} → length t ≤ step → IsSorted R t → Runs R step t
  more :
      {t : List A} (l r : List A)
      → t ≡ l ++ r
      → length l ≡ step
      → IsSorted R l
      → Runs R step r
      → Runs R step t

module _ {ℓ} {A : Type ℓ} where
  append_nothing : (l r : List A) → length r ≤ 0 → l ++ r ≡ l
  append_nothing l [] h = append-nil l
  append_nothing l (x ∷ r) h = absurd (omega arith)

module _ {ℓ κ} {A : Type ℓ} (R : A → A → Type κ) where
  -- Single elements are sorted blocks.
  pub Runs-one : (t : List A) → Runs R 1 t
  Runs-one [] = last (omega arith) tt
  Runs-one (x ∷ t) = more (x ∷ []) t refl refl (tt, tt) (Runs-one t)

  pub Runs-first :
      (step : ℕ) {t : List A}
      → Runs R step t
      → (l : List A) × (r : List A) × (t ≡ l ++ r)
        × (length l ≡ min step (length t))
        × IsSorted R l
        × Runs R step r
  Runs-first step {t} (last h s) =
      (t, [], sym (append-nil t), omega arith, s, last (omega arith) tt)
  Runs-first step {t} (more l r e h s m) =
      (l, r, e, omega (arith, ap length e, length-append l r), s, m)

  -- A single block is a sorted array.
  pub Runs-IsSorted : (step : ℕ) {t : List A} → Runs R step t → length t ≤ step → IsSorted R t
  Runs-IsSorted step (last h s) k = s
  Runs-IsSorted step (more l r e h s m) k =
      rw (e, append_nothing l r (omega (arith, ap length e, length-append l r))) s

  -- A merged pair of blocks before the merged rest.
  pub Runs-cons :
      (step : ℕ) (l r : List A)
      → IsSorted R l
      → Runs R step r
      → (length l ≡ step) ⊎ ((length l ≤ step) × (length r ≡ 0))
      → Runs R step (l ++ r)
  Runs-cons step l r s m (inl h) = more l r refl h s m
  Runs-cons step l [] s m (inr (h, k)) = rw (append-nil l) (last h s)
  Runs-cons step l (x ∷ r) s m (inr (h, k)) = absurd (omega arith)
