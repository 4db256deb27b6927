-- ===== src/Msort/Pair.antt =====
-- One round of the pass of msort.c merges two blocks in place.
use mathlib.Core.List.{append_assoc}
use Prim.Native.Nat.{min}
use sysprogramming_examples.Prelude.{
  ℕ, suc, ◌+◌, ◌-◌, ◌*◌, ◌%◌, ◌^◌, ◌≤◌, ◌<◌, ◌≡◌, refl, sym, ap, ◌∙◌, List, [], ◌++◌, arith,
  size_mod, ltb, if◌then◌else◌, lt→ltb,
}
use sysprogramming_examples.Prelude.Run.{ok}
use sysprogramming_examples.Memory.{length, drop, move_block}
use sysprogramming_examples.Memory.Laws.{
  length-append, length-drop, Perm-length, take-append, drop-append,
}
use sysprogramming_examples.Memory.Access.{move_block_lem}
use sysprogramming_examples.SortCommon.{CompareFun3}
use sysprogramming_examples.Order.Merge.{merge, merge-perm}
use sysprogramming_examples.Msort.{merge_loop, merge_pass}
use sysprogramming_examples.Msort.Loop.{merge_loop-merge}

module _ {ℓ κ} {A : Type ℓ} {M : Type κ} (compare : CompareFun3 A M) (arg : M) where
  -- One pair of blocks: merged to the scratch array and copied back.
  pub merge_pair :
      (done l r rest scratch : List A) (left right step n : ℕ)
      → left ≡ length done
      → right ≡ length done + length l
      → step ≡ length l
      → n ≡ length r
      → step + n ≤ length scratch
      → (s : List A) × (merge_loop
            (suc (step + n))
            (done ++ (l ++ (r ++ rest)))
            compare
            arg
            step
            n
            0
            0
            0
            left
            right
            scratch
          ≡ ok s)
        × (length s ≡ length scratch)
        × (move_block (done ++ (l ++ (r ++ rest))) left s 0 (step + n)
            ≡ ok ((done ++ merge compare arg l r) ++ rest))
  merge_pair done l r rest scratch left right step n hl hr hs hn hk =
      let a = done ++ (l ++ (r ++ rest)) in
      let merged = merge compare arg l r in
      let total = step + n in
      let size : length merged ≡ length l + length r =
        Perm-length (merge-perm compare arg l r) ∙ length-append l r in
      let loop =
        merge_loop-merge compare arg a (suc total) l r step n 0 0 0 left right [] scratch
          (omega arith) (omega arith) (omega arith) refl (omega arith)
          (r ++ rest, drop-append left done (l ++ (r ++ rest)) hl)
          (
            rest,
            ap (drop right) (sym (append_assoc done l (r ++ rest)))
                ∙ drop-append right (done ++ l) (r ++ rest) (omega (arith, length-append done l)),
          ) in
      let s = merged ++ drop (length l + length r) scratch in
      let length_s : length s ≡ length scratch = omega (
        arith,
        length-append merged (drop (length l + length r) scratch),
        length-drop (length l + length r) scratch,
      ) in
      let front = take-append left done (l ++ (r ++ rest)) hl in
      let copied = take-append total merged (drop (length l + length r) scratch) (omega arith) in
      let back : drop (left + total) a ≡ rest =
        ap (drop (left + total)) (simp append_assoc)
        ∙ drop-append (left + total) (done ++ (l ++ r)) rest
            (omega (arith, length-append done (l ++ r), length-append l r)) in
      (
        s,
        loop,
        length_s,
        move_block_lem a left s 0 total
              (omega (
                arith,
                length-append done (l ++ (r ++ rest)),
                length-append l (r ++ rest),
                length-append r rest,
              ))
              (omega arith)
            ∙ rw (front, copied, back),
      )

  -- The block that begins at `right` is the next one, or what is left of the array.
  block_length :
      (nmemb right step left size_r size_rest : ℕ)
      → nmemb ≡ right + size_r + size_rest
      → nmemb ≤ 2 ^ 62
      → step < nmemb
      → size_r ≡ min step (size_r + size_rest)
      → (if ltb nmemb ((right + step) % size_mod) then nmemb - right else step) ≡ size_r
  block_length nmemb right step left size_r size_rest hn hb hs hr = ground arith

  -- A round of the pass.
  pub merge_pass_pair :
      (fuel nmemb step left right : ℕ) (done l r rest scratch : List A)
      → nmemb ≡ length done + length l + length r + length rest
      → nmemb ≤ 2 ^ 62
      → step < nmemb
      → 0 < length r
      → left ≡ length done
      → right ≡ left + step
      → step ≡ length l
      → length r ≡ min step (length r + length rest)
      → length scratch ≡ nmemb
      → (s : List A) × (length s ≡ nmemb)
        × (merge_pass
              (suc fuel)
              compare
              arg
              nmemb
              step
              left
              right
              (done ++ (l ++ (r ++ rest)))
              scratch
            ≡ merge_pass fuel compare arg nmemb step
                (left + 2 * step)
                (right + 2 * step)
                ((done ++ merge compare arg l r) ++ rest)
                s)
  unfolding merge_pass merge_pair
  merge_pass_pair fuel nmemb step left right done l r rest scratch hn hb hm h0 hl hr hs hc hk =
      let count =
        block_length nmemb right step left (length r) (length rest) (omega arith) hb hm hc in
      let (s, loop, size, copy) =
        merge_pair done l r rest scratch left right step (length r) hl (omega arith) hs refl
          (omega arith) in
      let next_left : (left + (2 * step) % size_mod) % size_mod ≡ left + 2 * step = omega arith in
      let next_right : (right + (2 * step) % size_mod) % size_mod ≡ right + 2 * step =
        omega arith in
      (
        s,
        size ∙ hk,
        rw (lt→ltb right nmemb (omega arith), count, loop, copy, next_left, next_right),
      )
