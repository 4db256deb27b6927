-- ===== src/Tests/Threads.antt =====
-- Three threads of multithreaded-sort.c.
use sysprogramming_examples.Prelude.{ℕ, zero, suc, ◌<◌, ◌≡◌, refl, inl, inr, List, [], ◌∷◌, arith}
use sysprogramming_examples.Prelude.Run.{Run, Returns}
use sysprogramming_examples.Order.{All}
use sysprogramming_examples.SortCommon.{strcmp, compare_str_full}
use sysprogramming_examples.MergeTree.{Contains}
use sysprogramming_examples.MergeTree.Rounds.{IsMergedSort}
use sysprogramming_examples.MultithreadedSort.{
  merge_rounds, merge_round, merge_thread, merge_strings,
}
use sysprogramming_examples.MultithreadedSort.Laws.{IsOrdered}
use sysprogramming_examples.MultithreadedSort.Rounds.{merge_rounds_lem}

-- "a" and "c", "b", "aa"
abbrev segments : List (List (List ℕ))
segments = ((97 ∷ []) ∷ (99 ∷ []) ∷ []) ∷ ((98 ∷ []) ∷ []) ∷ ((97 ∷ 97 ∷ []) ∷ []) ∷ []

-- The last thread comes first.
abbrev order : ℕ → List ℕ
order step = 2 ∷ 0 ∷ 1 ∷ []

order-Contains : (step idx : ℕ) → idx < 3 → Contains idx (order step)
order-Contains step zero h = inr (inl refl)
order-Contains step (suc zero) h = inr (inr (inl refl))
order-Contains step (suc (suc zero)) h = inl refl
order-Contains step (suc (suc (suc idx))) h = absurd (omega arith)

segments-IsOrdered : All IsOrdered segments
unfolding compare_str_full
segments-IsOrdered = (((refl, tt), (tt, tt)), ((tt, tt), ((tt, tt), tt)))

merged :
    merge_rounds 3 order 3 1 segments
    ≡ Run.ok (((97 ∷ []) ∷ (97 ∷ 97 ∷ []) ∷ (98 ∷ []) ∷ (99 ∷ []) ∷ []) ∷ [] ∷ [] ∷ [])
unfolding merge_rounds merge_round merge_thread merge_strings strcmp
merged = refl

merge_rounds_lem_example :
    Returns (IsMergedSort IsOrdered segments) (merge_rounds 4 order 3 1 segments)
merge_rounds_lem_example = merge_rounds_lem order segments order-Contains segments-IsOrdered
