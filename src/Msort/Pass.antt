-- ===== src/Msort/Pass.antt =====
-- One pass of msort.c doubles the length of the sorted blocks.
use mathlib.Core.List.{append_assoc}
use mathlib.Core.List.Perm
use Prim.Native.Nat.{min}
use sysprogramming_examples.Prelude.{
  ℕ, zero, suc, ◌+◌, ◌*◌, ◌^◌, ◌≤◌, ◌<◌, ◌≡◌, refl, ap, ◌∙◌, List, ◌++◌, Perm, arith, le→ltb,
}
use sysprogramming_examples.Prelude.Run.{ok, Returns, returns, Returns-weaken}
use sysprogramming_examples.Memory.{length}
use sysprogramming_examples.Memory.Laws.{length-append, Perm-length}
use sysprogramming_examples.SortCommon.{CompareFun3}
use sysprogramming_examples.Order.{IsSorted, Le, IsOrder, same, select, KeepsOrder}
use sysprogramming_examples.Order.Stable.{select-append}
use sysprogramming_examples.Order.Merge.{merge, merge-perm, merge-IsSorted, select-merge}
use sysprogramming_examples.Msort.{merge_pass}
use native.Mathlib.Decide.{dec_lt}
use mathlib.Core.Logic.{◌⊎◌}
use sysprogramming_examples.Msort.Pair.{merge_pass_pair}
use sysprogramming_examples.Msort.Runs.{Runs, last, Runs-first, Runs-IsSorted, Runs-cons}

module _ {ℓ κ} {A : Type ℓ} {M : Type κ} (compare : CompareFun3 A M) (arg : M) where
  -- What a pass makes of the part `rest` that it has not reached, before which `done` stands.
  pub record Passed (step : ℕ) (done rest : List A) (p : List A × List A) : Type ℓ where
    pub after : List A
    pub array : p.0 ≡ done ++ after
    pub runs : Runs (Le compare arg) (2 * step) after
    pub perm : Perm after rest
    pub stable : KeepsOrder compare arg rest after
    pub scratch : length p.1 ≡ length p.0

  merge_pass_over :
      (fuel nmemb step left right : ℕ) (a scratch : List A)
      → nmemb ≤ right
      → merge_pass (suc fuel) compare arg nmemb step left right a scratch ≡ ok (a, scratch)
  unfolding merge_pass
  merge_pass_over fuel nmemb step left right a scratch h = rw (le→ltb right nmemb h)

  -- A single block is left as it is.
  Passed-over :
      (step : ℕ) (done rest scratch : List A)
      → IsSorted (Le compare arg) rest
      → length rest ≤ step
      → length scratch ≡ length (done ++ rest)
      → Passed step done rest (done ++ rest, scratch)
  Passed-over step done rest scratch s h hk = record {
    after = rest;
    array = refl;
    runs = last (omega arith) s;
    perm = Perm.rfl;
    stable = λ x. refl;
    scratch = hk;
  }

module _ {ℓ κ} {A : Type ℓ} {M : Type κ} {compare : CompareFun3 A M} {arg : M}
    (o : IsOrder compare arg) where
  -- Two whole blocks, or a shorter one at the end of the array.
  whole_or_last :
      (merged l r after rest step : ℕ)
      → merged ≡ l + r
      → l ≡ step
      → r ≡ min step (r + rest)
      → after ≡ rest
      → (merged ≡ 2 * step) ⊎ ((merged ≤ 2 * step) × (after ≡ 0))
  whole_or_last merged l r after rest step h hl hr ha = ground arith

  -- A pass over a pair of blocks and the rest, from a pass over the rest.
  Passed-pair :
      (step : ℕ) (done l r rest : List A)
      → IsSorted (Le compare arg) l
      → IsSorted (Le compare arg) r
      → length l ≡ step
      → length r ≡ min step (length r + length rest)
      → (p : List A × List A) → Passed compare arg step (done ++ merge compare arg l r) rest p
      → Passed compare arg step done (l ++ (r ++ rest)) p
  Passed-pair step done l r rest sl sr hl hr p q =
      let merged = merge compare arg l r in
      let items = merge-perm compare arg l r in
      let size = Perm-length items ∙ length-append l r in
      record {
        after = merged ++ q.after;
        array = q.array ∙ append_assoc done merged q.after;
        runs =
            Runs-cons (Le compare arg) (2 * step) merged q.after (merge-IsSorted o l r sl sr) q.runs
              (whole_or_last (length merged) (length l) (length r) (length q.after) (length rest)
                step size hl hr (Perm-length q.perm));
        perm = Perm.trans (Perm.append items q.perm) (rw (append_assoc l r rest) Perm.rfl);
        stable = λ z.
            let same_z = same compare arg z in
            rw
              (
                select-append same_z merged q.after,
                select-merge o z l r sl,
                q.stable z,
                select-append same_z l (r ++ rest),
                select-append same_z r rest,
              )
              (append_assoc (select same_z l) (select same_z r) (select same_z rest));
        scratch = q.scratch;
      }

  pub merge_pass-Passed :
      (fuel nmemb step left right : ℕ) (done rest scratch : List A)
      → length rest < fuel
      → nmemb ≡ length done + length rest
      → nmemb ≤ 2 ^ 62
      → 0 < step
      → step < nmemb
      → length done ≤ left
      → (0 < length rest → left ≡ length done)
      → right ≡ left + step
      → length scratch ≡ nmemb
      → Runs (Le compare arg) step rest
      → Returns
          (Passed compare arg step done rest)
          (merge_pass fuel compare arg nmemb step left right (done ++ rest) scratch)
  merge_pass-Passed zero nmemb step left right done rest scratch hf hn hb hs hm hd hl hr hk runs =
      absurd (omega arith)
  merge_pass-Passed (suc fuel) nmemb step left right done rest scratch hf hn hb hs hm hd hl hr hk
        runs =
      elim (dec_lt right nmemb) [
        | no over ↦
            let short : length rest ≤ step = ground arith in
            rw
              (merge_pass_over compare arg fuel nmemb step left right (done ++ rest) scratch
                (omega arith))
              (returns (
                Passed-over compare arg step done rest scratch
                  (Runs-IsSorted (Le compare arg) step runs short) short
                  (omega (arith, length-append done rest))))
        | yes more ↦
            let here : left ≡ length done = hl (omega arith) in
            let (l, tail, e, size_l, sl, runs_l) = Runs-first (Le compare arg) step runs in
            let (r, after, e', size_r, sr, runs_r) = Runs-first (Le compare arg) step runs_l in
            let sizes : (length rest ≡ length l + length tail)
                × (length tail ≡ length r + length after) =
              (ap length e ∙ length-append l tail, ap length e' ∙ length-append r after) in
            let min_r : length r ≡ min step (length r + length after) = omega arith in
            let (s, size, round) =
              merge_pass_pair compare arg fuel nmemb step left right done l r after scratch
                (omega arith) hb hm (omega arith) here hr (omega arith) min_r hk in
            let merged = merge compare arg l r in
            let size_merged = Perm-length (merge-perm compare arg l r) ∙ length-append l r in
            rw (e, e', round)
              (Returns-weaken (Passed-pair step done l r after sl sr (omega arith) min_r) (
                merge_pass-Passed fuel nmemb step (left + 2 * step) (right + 2 * step)
                  (done ++ merged) after s (omega arith) (omega (arith, length-append done merged))
                  hb hs hm (omega (arith, length-append done merged))
                  (λ left_over. omega (arith, length-append done merged)) (omega arith) size
                  runs_r))
      ]
