-- ===== src/Msort/Loop.antt =====
-- The merge loop of msort.c writes the merged blocks to the scratch array.
use mathlib.Core.List.{append_assoc}
use sysprogramming_examples.Prelude.{
  ℕ, zero, suc, ◌+◌, ◌-◌, ◌≤◌, ◌<◌, ◌≡◌, ap, ◌∙◌, List, [], ◌∷◌, ◌++◌, arith, is_pos, Bool-cases,
  inl, inr, lt→ltb, le→ltb, le→leb, lt→leb,
}
use sysprogramming_examples.Prelude.Run.{ok}
use sysprogramming_examples.Memory.{length, drop}
use sysprogramming_examples.Memory.Laws.{length-append}
use sysprogramming_examples.Memory.Access.{
  At, At-load, At-next, At-inside, store-middle, move_block-At,
}
use sysprogramming_examples.SortCommon.{CompareFun3}
use sysprogramming_examples.Order.Merge.{merge, merge_nil, nil_merge, merge_left, merge_right}
use sysprogramming_examples.Msort.{merge_loop}

module _ {ℓ κ} {A : Type ℓ} {M : Type κ} (compare : CompareFun3 A M) (arg : M) (a : List A) where
  -- The loop ends when both blocks are used up.
  merge_loop_done :
      (fuel m n i j result left right : ℕ) (s : List A)
      → 0 < fuel
      → m + n ≤ i + j
      → merge_loop fuel a compare arg m n i j result left right s ≡ ok s
  unfolding merge_loop
  merge_loop_done zero m n i j result left right s h e = absurd (omega arith)
  merge_loop_done (suc fuel) m n i j result left right s h e = rw (le→ltb (i + j) (m + n) e)

  -- `ls` and `rs` are what is left of the blocks, `out` is written and `junk` is not.
  pub merge_loop-merge :
      (fuel : ℕ) (ls rs : List A) (m n i j result left right : ℕ) (out junk : List A)
      → length ls + length rs < fuel
      → i + length ls ≡ m
      → j + length rs ≡ n
      → result ≡ length out
      → length ls + length rs ≤ length junk
      → At a left ls
      → At a right rs
      → merge_loop fuel a compare arg m n i j result left right (out ++ junk)
        ≡ ok (out ++ (merge compare arg ls rs ++ drop (length ls + length rs) junk))
  unfolding merge_loop
  merge_loop-merge zero ls rs m n i j result left right out junk hf hm hn hr hk al ar =
      absurd (omega arith)
  merge_loop-merge (suc fuel) [] [] m n i j result left right out junk hf hm hn hr hk al ar =
      rw (le→ltb (i + j) (m + n) (omega arith), nil_merge compare arg [])
  merge_loop-merge (suc fuel) [] (y ∷ rs) m n i j result left right out junk hf hm hn hr hk al ar =
      let k : 0 + suc (length rs) ≡ n - j = omega arith in
      rw (
        lt→ltb (i + j) (m + n) (omega arith),
        le→leb m i (omega arith),
        move_block-At out junk a (y ∷ rs) result right (n - j) hr (omega arith) (omega arith)
            (omega (arith, At-inside a right y rs ar)) ar,
        merge_loop_done fuel m n i n result left right (out ++ (y ∷ rs ++ drop (n - j) junk))
            (omega arith) (omega arith),
        nil_merge compare arg (y ∷ rs),
        k,
      )
  merge_loop-merge (suc fuel) (x ∷ ls) [] m n i j result left right out junk hf hm hn hr hk al ar =
      let k : suc (length ls) + 0 ≡ m - i = omega arith in
      rw (
        lt→ltb (i + j) (m + n) (omega arith),
        lt→leb m i (omega arith),
        le→leb n j (omega arith),
        move_block-At out junk a (x ∷ ls) result left (m - i) hr (omega arith) (omega arith)
            (omega (arith, At-inside a left x ls al)) al,
        merge_loop_done fuel m n m j result left right (out ++ (x ∷ ls ++ drop (m - i) junk))
            (omega arith) (omega arith),
        merge_nil compare arg (x ∷ ls),
        k,
      )
  merge_loop-merge (suc fuel) (x ∷ ls) (y ∷ rs) m n i j result left right out [] hf hm hn hr hk al
        ar =
      absurd (omega arith)
  merge_loop-merge (suc fuel) (x ∷ ls) (y ∷ rs) m n i j result left right out (u ∷ junk) hf hm hn hr
        hk al ar =
      let written = λ (v : A). store-middle result out u v junk hr in
      let grown = λ (v : A). append_assoc out (v ∷ []) in
      let size = λ (v : A). length-append out (v ∷ []) in
      let k : suc (length ls) + suc (length rs) ≡ suc (length ls + suc (length rs)) = omega arith in
      let k' : suc (length ls) + length rs ≡ length ls + suc (length rs) = omega arith in
      rw
        (
          lt→ltb (i + j) (m + n) (omega arith),
          lt→leb m i (omega arith),
          lt→leb n j (omega arith),
          At-load a left x ls al,
          At-load a right y rs ar,
        )
        (elim (Bool-cases (is_pos (compare x y arg))) [
          | inl e ↦
              rw (e, written y, merge_right compare arg x y ls rs e, k, ← k', ← grown y junk)
                (merge_loop-merge fuel (x ∷ ls) rs m n i (j + 1) (result + 1) left (right + 1)
                    (out ++ y ∷ []) junk (omega arith) hm (omega arith) (omega (arith, size y))
                    (omega arith) al (At-next a right y rs ar)
                  ∙ ap ok (grown y _))
          | inr e ↦
              rw (e, written x, merge_left compare arg x y ls rs e, k, ← grown x junk)
                (merge_loop-merge fuel ls (y ∷ rs) m n (i + 1) j (result + 1) (left + 1) right
                    (out ++ x ∷ []) junk (omega arith) (omega arith) hn (omega (arith, size x))
                    (omega arith) (At-next a left x ls al) ar
                  ∙ ap ok (grown x _))
        ])
