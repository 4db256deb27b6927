-- ===== src/MultithreadedSort/Rounds.antt =====
-- After the rounds the first segment holds all strings in order.
use sysprogramming_examples.Prelude.{
  ℕ, zero, suc, ◌*◌, ◌<◌, ◌≡◌, refl, List, Bool-cases, inl, inr, ltb,
}
use sysprogramming_examples.Prelude.Run.{Returns}
use sysprogramming_examples.Memory.{length}
use sysprogramming_examples.Order.{All}
use sysprogramming_examples.MergeTree.{Contains, join_round, join_rounds}
use sysprogramming_examples.MergeTree.Rounds.{IsMergedSort, join_rounds_lem}
use sysprogramming_examples.MultithreadedSort.{merge_strings, merge_rounds}
use sysprogramming_examples.MultithreadedSort.Laws.{
  IsOrdered, merge_strings-IsCombine, merge_round-join_round,
}

merge_rounds-join_rounds :
    (fuel : ℕ) (order : ℕ → List ℕ) (n s : ℕ) (segments : List (List (List ℕ)))
    → merge_rounds fuel order n s segments ≡ join_rounds merge_strings fuel order n s segments
unfolding merge_rounds join_rounds
merge_rounds-join_rounds zero order n s segments = refl
merge_rounds-join_rounds (suc fuel) order n s segments = elim (Bool-cases (ltb s n)) [
  | inr e ↦ rw e refl
  | inl e ↦
      rw (e, merge_round-join_round (order s) n s segments)
        (merge_rounds-join_rounds fuel order n (2 * s)
          (join_round merge_strings (order s) n s segments))
]

-- If each thread has sorted its segment, the rounds of merging end with all strings in order in the
-- first segment, for any number of threads: in each round the threads may take their turns in any
-- order in which each of them occurs.
pub merge_rounds_lem :
    (order : ℕ → List ℕ) (segments : List (List (List ℕ)))
    → ((step idx : ℕ) → idx < length segments → Contains idx (order step))
    → All IsOrdered segments
    → Returns
        (IsMergedSort IsOrdered segments)
        (merge_rounds (suc (length segments)) order (length segments) 1 segments)
merge_rounds_lem order segments all sorted =
    rw (merge_rounds-join_rounds (suc (length segments)) order (length segments) 1 segments)
      (join_rounds_lem merge_strings-IsCombine order segments all sorted)
