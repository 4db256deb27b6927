-- ===== src/Fsort/Classes.antt =====
-- The counts of the classes in fsort.c.
use native.Mathlib.Nat.{mod-eq_of_lt}
use sysprogramming_examples.Prelude.{
  ℕ, zero, suc, ◌+◌, ◌<◌, ◌≡◌, ◌==◌, refl, ap, ◌∙◌, inl, inr, List, [], ◌∷◌, ◌++◌, arith,
  if◌then◌else◌, size_mod, lt→ltb, Bool-cases,
}
use mathlib.Core.List.{append_assoc}
use sysprogramming_examples.Prelude.Run.{ok, Returns, returns, Returns-weaken}
use sysprogramming_examples.Memory.{length, get_or, set, store}
use sysprogramming_examples.Memory.Laws.{length-set, length-append}
use sysprogramming_examples.Memory.Access.{load-middle}
use sysprogramming_examples.Memory.Index.{load-get_or, get_or-set}
use sysprogramming_examples.Order.{All}
use sysprogramming_examples.Fsort.{increment, count_classes, filled}

-- How many elements are in class `k`.
abbrev pub tally {ℓ} : {A : Type ℓ} → (class : A → ℕ) → (k : ℕ) → List A → ℕ
tally class k [] = 0
tally class k (x ∷ xs) = (if class x == k then 1 else 0) + tally class k xs

increment_lem :
    (l : List ℕ) (k : ℕ)
    → k < length l
    → get_or l k 0 + 1 < size_mod
    → increment l k ≡ ok (set l k (get_or l k 0 + 1))
unfolding increment store
increment_lem l k h b = rw (load-get_or 0 l k h, lt→ltb k (length l) h, mod-eq_of_lt b) refl

-- `l` after the count of `xs`, where it has had the counts of `before`.
pub record IsCounted {ℓ} {A : Type ℓ} (class : A → ℕ) (xs : List A) (before l : List ℕ)
    : Type 0 where
  pub size : length l ≡ length before
  pub counts : (k : ℕ) → get_or l k 0 ≡ get_or before k 0 + tally class k xs

module _ {ℓ} {A : Type ℓ} (class : A → ℕ) where
  IsCounted-increment :
      (x : A) (xs : List A) (l l' : List ℕ)
      → class x < length l
      → IsCounted class xs (set l (class x) (get_or l (class x) 0 + 1)) l'
      → IsCounted class (x ∷ xs) l l'
  IsCounted-increment x xs l l' h c = record {
    size = c.size ∙ length-set l (class x) (get_or l (class x) 0 + 1);
    counts = λ k. elim (Bool-cases (class x == k)) [
      | inl e ↦
          let same : class x ≡ k = ground arith in
          let here = get_or-set 0 l (class x) k (get_or l (class x) 0 + 1) h in
          let value = ap (λ n. get_or l n 0) same in ground (arith, c.counts k, here, value)
      | inr e ↦ ground (arith, c.counts k, get_or-set 0 l (class x) k (get_or l (class x) 0 + 1) h)
    ];
  }

  count_from :
      (done xs : List A) (i : ℕ) (l : List ℕ)
      → i ≡ length done
      → All (λ x. class x < length l) xs
      → ((k : ℕ) → get_or l k 0 + length xs < size_mod)
      → Returns (IsCounted class xs l) (count_classes class (length xs) i (done ++ xs) l)
  unfolding count_classes
  count_from done [] i l e h b = returns (record { size = refl; counts = λ k. omega arith })
  count_from done (x ∷ xs) i l e h b =
      let next = set l (class x) (get_or l (class x) 0 + 1) in
      let room : get_or l (class x) 0 + 1 < size_mod = omega (arith, b (class x)) in
      rw
        (
          load-middle i done x xs e,
          increment_lem l (class x) (h.0) room,
          ← append_assoc done (x ∷ []) xs,
        )
        (Returns-weaken (λ l' c. IsCounted-increment x xs l l' h.0 c)
          (count_from (done ++ x ∷ []) xs (i + 1) next
            (omega (arith, e, length-append done (x ∷ [])))
            (rw (length-set l (class x) (get_or l (class x) 0 + 1)) (h.1))
            (λ k. ground (
              arith,
              b k,
              b (class x),
              get_or-set 0 l (class x) k (get_or l (class x) 0 + 1) h.0,
            ))))

length-filled : (n x : ℕ) → length (filled n x) ≡ n
unfolding filled
length-filled zero x = refl
length-filled (suc n) x = ap suc (length-filled n x)

get_or-filled : (n k : ℕ) → get_or (filled n 0) k 0 ≡ 0
unfolding filled
get_or-filled zero k = refl
get_or-filled (suc n) zero = refl
get_or-filled (suc n) (suc k) = get_or-filled n k

-- From counters that are all zero, where the class of each element is below their number and the
-- number of elements does not overflow, the loop returns as many counters, and each one is the
-- number of elements in its class.
pub count_classes_lem {ℓ} :
    {A : Type ℓ} (class : A → ℕ) (lsize : ℕ) (base : List A)
    → All (λ x. class x < lsize) base
    → length base < size_mod
    → Returns
        (λ l. (length l ≡ lsize) × ((k : ℕ) → get_or l k 0 ≡ tally class k base))
        (count_classes class (length base) 0 base (filled lsize 0))
count_classes_lem class lsize base h b =
    Returns-weaken
      (λ l c.
        (c.size ∙ length-filled lsize 0, λ k. omega (arith, c.counts k, get_or-filled lsize k)))
      (count_from class [] base 0 (filled lsize 0) refl (rw (length-filled lsize 0) h)
        (λ k. omega (arith, b, get_or-filled lsize k)))
