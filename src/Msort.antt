-- ===== src/Msort.antt =====
-- posix/lib/msort.c: bottom-up merge sort. Sums and products that can pass 2^64 are taken modulo
-- 2^64. `scratch` is the array that `malloc` gave, with whatever it holds. The counters i and j,
-- the results of `merge_loop` and the lengths stay below `nmemb`.
pub mod Loop
pub mod Runs
pub mod Pair
pub mod Pass
pub mod Laws
use sysprogramming_examples.Prelude.{
  ℕ, zero, suc, ◌+◌, ◌-◌, ◌*◌, ◌%◌, List, is_nonpos, leb, ltb, if◌then◌else◌, size_mod,
}
use sysprogramming_examples.Prelude.Run.{Run, ok, no_fuel, ◌>>=◌}
use sysprogramming_examples.Memory.{load, store, move_block}
use sysprogramming_examples.SortCommon.{CompareFun2, CompareFun3, compare_extend}

module _ {ℓ κ} {A : Type ℓ} {M : Type κ} where
  -- `while (i+j < total_len)`: `a` is read at `left` and `right`, `scratch` is written at `result`.
  -- After a block copy `result` is left as it is.
  unfoldable pub merge_loop :
      (fuel : ℕ)
      → List A
      → CompareFun3 A M
      → M
      → (m n i j result left right : ℕ) → List A
      → Run (List A)
  merge_loop zero a compare arg m n i j result left right scratch = no_fuel
  merge_loop (suc fuel) a compare arg m n i j result left right scratch =
      let copy_right : Run (List A) = do
        s ← move_block scratch result a right (n - j)
        merge_loop fuel a compare arg m n i n result left right s
      in let copy_left : Run (List A) = do
        s ← move_block scratch result a left (m - i)
        merge_loop fuel a compare arg m n m j result left right s
        in let take_left : A → Run (List A) = λ x. do
          s ← store scratch result x
          merge_loop fuel a compare arg m n (i + 1) j (result + 1) (left + 1) right s
          in let take_right : A → Run (List A) = λ y. do
            s ← store scratch result y
            merge_loop fuel a compare arg m n i (j + 1) (result + 1) left (right + 1) s
            in let choose : Run (List A) = do
              x ← load a left
              y ← load a right
              if is_nonpos (compare x y arg) then take_left x else take_right y
              in if ltb (i + j) (m + n)
                then (if leb m i then copy_right else if leb n j then copy_left else choose)
                else ok scratch

  -- The loop over pairs of blocks: the array and the scratch array after it.
  pub merge_pass :
      (fuel : ℕ)
      → CompareFun3 A M
      → M
      → (nmemb step start_left start_right : ℕ) → List A
      → List A
      → Run (List A × List A)
  merge_pass zero compare arg nmemb step start_left start_right a scratch = no_fuel
  merge_pass (suc fuel) compare arg nmemb step start_left start_right a scratch =
      let dstep = (2 * step) % size_mod in
      let n = if ltb nmemb ((start_right + step) % size_mod) then nmemb - start_right else step in
      let total_len = step + n in
      let body : Run (List A × List A) = do
        s ← merge_loop (suc total_len) a compare arg step n 0 0 0 start_left start_right scratch
        b ← move_block a start_left s 0 total_len
        merge_pass fuel compare arg nmemb step ((start_left + dstep) % size_mod)
            ((start_right + dstep) % size_mod) b s
      in if ltb start_right nmemb then body else ok (a, scratch)

  -- The loop over `step`.
  pub step_loop :
      (fuel : ℕ) → CompareFun3 A M → M → (nmemb step : ℕ) → List A → List A → Run (List A)
  step_loop zero compare arg nmemb step a scratch = no_fuel
  step_loop (suc fuel) compare arg nmemb step a scratch =
      let body : Run (List A) = do
        (b, s) ← merge_pass (suc nmemb) compare arg nmemb step 0 step a scratch
        step_loop fuel compare arg nmemb ((step * 2) % size_mod) b s
      in if ltb step nmemb then body else ok a

  unfoldable pub msort_r :
      List A → (nmemb : ℕ) → CompareFun3 A M → M → (scratch : List A) → Run (List A)
  unfolding step_loop merge_pass merge_loop
  msort_r base nmemb compare arg scratch =
      if leb nmemb 1 then ok base else step_loop (suc nmemb) compare arg nmemb 1 base scratch

unfoldable pub msort {ℓ} :
    {A : Type ℓ} → List A → (nmemb : ℕ) → CompareFun2 A → (scratch : List A) → Run (List A)
unfolding msort_r
msort base nmemb compare scratch = msort_r base nmemb compare_extend compare scratch
