-- ===== src/Psort/Loop.antt =====
-- The merge loop of psort.c does what the one of msort.c does.
use sysprogramming_examples.Prelude.{
  ℕ, zero, suc, ◌+◌, ◌-◌, ◌≤◌, ◌≡◌, refl, List, arith, leb, ltb, is_nonpos, Bool-cases, inl, inr,
  le→ltb,
}
use sysprogramming_examples.Prelude.Run.{Run, ok, fault, no_fuel, ◌>>=◌}
use sysprogramming_examples.Memory.{load, store, move_block}
use sysprogramming_examples.SortCommon.{CompareFun3}
use sysprogramming_examples.Msort.{merge_loop}
use sysprogramming_examples.Psort.{psort_merge_loop}

-- Two calls that go on alike after the same call.
same_rest {ℓ ℓ'} :
    {A : Type ℓ} {B : Type ℓ'} (call : Run A) {f g : A → Run B}
    → ((x : A) → f x ≡ g x)
    → (call >>= f) ≡ (call >>= g)
same_rest (ok x) h = h x
same_rest fault h = refl
same_rest no_fuel h = refl

module _ {ℓ κ} {A : Type ℓ} {M : Type κ} (compare : CompareFun3 A M) (arg : M) (a : List A) where
  -- After a block copy the loops end, wherever the target is.
  both_end :
      (fuel m n i j target result left right : ℕ) (s : List A)
      → m + n ≤ i + j
      → psort_merge_loop fuel a compare arg m n i j target left right s
        ≡ merge_loop fuel a compare arg m n i j result left right s
  unfolding psort_merge_loop merge_loop
  both_end zero m n i j target result left right s h = refl
  both_end (suc fuel) m n i j target result left right s h = rw (le→ltb (i + j) (m + n) h)

  -- The merge loops of psort.c and msort.c compute the same, though only the first one moves the
  -- target after it has copied the rest of a block.
  pub psort_merge_loop-merge_loop :
      (fuel m n i j target left right : ℕ) (s : List A)
      → psort_merge_loop fuel a compare arg m n i j target left right s
        ≡ merge_loop fuel a compare arg m n i j target left right s
  unfolding psort_merge_loop merge_loop
  psort_merge_loop-merge_loop zero m n i j target left right s = refl
  psort_merge_loop-merge_loop (suc fuel) m n i j target left right s =
      elim (Bool-cases (ltb (i + j) (m + n))) [
        | inr e ↦ rw e
        | inl e ↦ elim (Bool-cases (leb m i)) [
          | inl e' ↦
              rw (e, e')
                (same_rest (move_block s target a right (n - j)) (λ d.
                  both_end fuel m n i n (target + (n - j)) target left right d (ground arith)))
          | inr e' ↦ elim (Bool-cases (leb n j)) [
            | inl e'' ↦
                rw (e, e', e'')
                  (same_rest (move_block s target a left (m - i)) (λ d.
                    both_end fuel m n m j (target + (m - i)) target left right d (ground arith)))
            | inr e'' ↦
                rw (e, e', e'')
                  (same_rest (load a left) (λ x. same_rest (load a right) (λ y.
                    elim (Bool-cases (is_nonpos (compare x y arg))) [
                      | inl c ↦ rw c (
                          same_rest (store s target x) (λ d.
                            psort_merge_loop-merge_loop fuel m n (i + 1) j (target + 1) (left + 1)
                              right d))
                      | inr c ↦ rw c (
                          same_rest (store s target y) (λ d.
                            psort_merge_loop-merge_loop fuel m n i (j + 1) (target + 1) left
                              (right + 1) d))
                    ])))
          ]
        ]
      ]
