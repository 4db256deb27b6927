-- ===== src/Msort/Laws.antt =====
-- msort.c sorts, and elements that compare equal keep their order.
use mathlib.Core.List.Perm
use native.Mathlib.Decide.{dec_lt}
use sysprogramming_examples.Prelude.{
  ℕ, zero, suc, ◌-◌, ◌*◌, ◌%◌, ◌^◌, ◌≤◌, ◌<◌, ◌≡◌, refl, List, [], ◌∷◌, Perm, arith, size_mod,
  lt→ltb, le→ltb, lt→leb,
}
use sysprogramming_examples.Prelude.Run.{Returns, returns, Returns-weaken, Returns-value}
use sysprogramming_examples.Memory.{length}
use sysprogramming_examples.Memory.Laws.{Perm-length}
use sysprogramming_examples.SortCommon.{CompareFun3}
use sysprogramming_examples.Order.{Le, IsOrder, StablySorts}
use sysprogramming_examples.Order.Stable.{StablySorts-from}
use sysprogramming_examples.Msort.{step_loop, msort_r}
use sysprogramming_examples.Msort.Runs.{Runs, Runs-one, Runs-IsSorted}
use sysprogramming_examples.Msort.Pass.{merge_pass-Passed}

module _ {ℓ κ} {A : Type ℓ} {M : Type κ} {compare : CompareFun3 A M} {arg : M}
    (o : IsOrder compare arg) where
  -- Invariant of the outer loop: the blocks of `step` elements are sorted.
  step_loop-StablySorts :
      (fuel nmemb step : ℕ) (a scratch : List A)
      → nmemb - step < fuel
      → nmemb ≡ length a
      → nmemb ≤ 2 ^ 62
      → 0 < step
      → length scratch ≡ nmemb
      → Runs (Le compare arg) step a
      → Returns (StablySorts compare arg a) (step_loop fuel compare arg nmemb step a scratch)
  unfolding step_loop
  step_loop-StablySorts zero nmemb step a scratch hf hn hb hs hk runs = absurd (omega arith)
  step_loop-StablySorts (suc fuel) nmemb step a scratch hf hn hb hs hk runs =
      elim (dec_lt step nmemb) [
        | no over ↦ rw (le→ltb step nmemb (omega arith)) (
            returns (record {
              sorts = record {
                sorted = Runs-IsSorted (Le compare arg) step runs (omega arith);
                perm = Perm.rfl;
              };
              stable = λ x. refl;
            }))
        | yes more ↦
            let (p, pass, q) = Returns-value (
              merge_pass-Passed o (suc nmemb) nmemb step 0 step [] a scratch (omega arith)
                (omega arith) hb hs more (omega arith) (λ h. refl) (omega arith) hk runs) in
            let doubled : (step * 2) % size_mod ≡ 2 * step = omega arith in
            let items : Perm p.0 a = rw q.array q.perm in
            rw (lt→ltb step nmemb more, pass, doubled)
              (Returns-weaken (λ b. StablySorts-from items (λ x. rw q.array (q.stable x)))
                (step_loop-StablySorts fuel nmemb (2 * step) p.0 p.1 (omega arith)
                  (omega (arith, Perm-length items)) hb (omega arith)
                  (omega (arith, q.scratch, Perm-length items)) (rw q.array q.runs)))
      ]

  -- Merge sort of `nmemb` ≤ 2^62 elements, by a comparison that is a total preorder and with a
  -- scratch array of their number, returns: the loops end, no access leaves an array, the elements are those of before in ascending order, and
  -- elements that compare equal keep their order.
  pub msort_r-StablySorts :
      (a scratch : List A)
      → length a ≤ 2 ^ 62
      → length scratch ≡ length a
      → Returns (StablySorts compare arg a) (msort_r a (length a) compare arg scratch)
  unfolding msort_r
  msort_r-StablySorts [] scratch h k =
      returns (record { sorts = record { sorted = tt; perm = Perm.rfl }; stable = λ x. refl })
  msort_r-StablySorts (x ∷ []) scratch h k =
      returns (record { sorts = record { sorted = (tt, tt); perm = Perm.rfl }; stable = λ x. refl })
  msort_r-StablySorts (x ∷ y ∷ a) scratch h k = rw (lt→leb (suc (suc (length a))) 1 (omega arith)) (
      step_loop-StablySorts (suc (length (x ∷ y ∷ a))) (length (x ∷ y ∷ a)) 1 (x ∷ y ∷ a) scratch
        (omega arith) refl h (omega arith) k (Runs-one (Le compare arg) (x ∷ y ∷ a)))
