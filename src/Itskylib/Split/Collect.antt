-- ===== src/Itskylib/Split/Collect.antt =====
-- The pointers of split_to_array in their final array.
use mathlib.Core.List.{append_assoc}
use sysprogramming_examples.Prelude.{
  ℕ, ◌+◌, ◌*◌, ◌<◌, ◌≡◌, refl, ◌∙◌, List, [], ◌∷◌, ◌++◌, arith, leb, Bool-cases, inl, inr,
}
use sysprogramming_examples.Prelude.Run.{ok}
use sysprogramming_examples.Memory.{length}
use sysprogramming_examples.Memory.Laws.{length-append}
use sysprogramming_examples.Memory.Access.{load-middle, store-middle}
use sysprogramming_examples.Itskylib.Split.{max_block_size, collect}

-- `done` is copied, `rest` not yet.
pub collect_lem :
    (done rest junk : List ℕ) (i block_pos string_pos : ℕ)
    → i ≡ length done
    → block_pos * max_block_size + string_pos ≡ i
    → string_pos < max_block_size
    → length junk ≡ length rest
    → collect (length rest) i block_pos string_pos (done ++ rest) (done ++ junk) ≡ ok (done ++ rest)
unfolding collect
collect_lem done [] [] i bp sp e p hs h = refl
collect_lem done [] (u ∷ junk) i bp sp e p hs h = absurd (omega arith)
collect_lem done (x ∷ rest) [] i bp sp e p hs h = absurd (omega arith)
collect_lem done (x ∷ rest) (u ∷ junk) i bp sp e p hs h =
    let next : (bp' sp' : ℕ)
        → bp' * max_block_size + sp' ≡ i + 1
        → sp' < max_block_size
        → collect (length rest) (i + 1) bp' sp' (done ++ x ∷ rest) (done ++ x ∷ junk)
          ≡ ok (done ++ x ∷ rest) =
      λ bp' sp' p' hs'.
        rw (← append_assoc done (x ∷ []) rest, ← append_assoc done (x ∷ []) junk)
          (collect_lem (done ++ x ∷ []) rest junk (i + 1) bp' sp'
            (omega (arith, length-append done (x ∷ []))) p' hs' (omega arith)) in
    rw (load-middle (bp * max_block_size + sp) done x rest (p ∙ e), store-middle i done u x junk e)
      (elim (Bool-cases (leb max_block_size (sp + 1))) [
        | inl full ↦ rw full (next (bp + 1) 0 (ground arith) (omega arith))
        | inr room ↦ rw room (next bp (sp + 1) (omega arith) (ground arith))
      ])
