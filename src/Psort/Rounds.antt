-- ===== src/Psort/Rounds.antt =====
-- The rounds between the barriers of psort.c, for any order of the threads in a round.
use mathlib.Core.List.Perm
use native.Mathlib.Decide.{dec_lt}
use native.Mathlib.Nat.{zero-mod}
use sysprogramming_examples.Prelude.{
  ℕ, zero, suc, ◌-◌, ◌*◌, ◌%◌, ◌^◌, ◌≤◌, ◌<◌, ◌≡◌, refl, ◌∙◌, List, [], ◌∷◌, arith, lt→ltb, le→ltb,
}
use sysprogramming_examples.Prelude.Run.{ok, Returns, returns, Returns-then, Returns-weaken}
use sysprogramming_examples.Memory.{length}
use sysprogramming_examples.SortCommon.{CompareFun3}
use sysprogramming_examples.Order.{IsOrder, IsSorted, Le, All}
use sysprogramming_examples.Order.Merge.{merge, merge-perm, merge-IsSorted}
use sysprogramming_examples.MergeTree.{Contains, IsCombine, join_thread, join_round, join_rounds}
use sysprogramming_examples.MergeTree.Contents.{even_multiple}
use sysprogramming_examples.MergeTree.Laws.{Kept, join_thread-Kept}
use sysprogramming_examples.MergeTree.Rounds.{join_round_doubles}
use sysprogramming_examples.Psort.{SortableData}
use sysprogramming_examples.Psort.Parallel.{Platform, Job, psort_round, psort_rounds}
use sysprogramming_examples.Psort.Layout.{IsLaid, IsLive}
use sysprogramming_examples.Psort.Refinement.{IsOnce, turn_refines}

-- Each of the threads 0, ..., n - 1 has one turn, and no others have one.
pub record IsTurns (n : ℕ) (order : List ℕ) : Type 0 where
  pub inside : All (λ idx. idx < n) order
  pub once : IsOnce order
  pub every : (idx : ℕ) → idx < n → Contains idx order

pub merge-IsCombine {ℓ κ} :
    {A : Type ℓ} {M : Type κ} {compare : CompareFun3 A M} {arg : M}
    → IsOrder compare arg
    → IsCombine (IsSorted (Le compare arg)) (merge compare arg)
merge-IsCombine o = record { nil = tt; keeps = merge-IsSorted o; perm = merge-perm _ _ }

module _ {ℓ κ μ ν} {A : Type ℓ} {M : Type κ} {Double : Type μ} {MetricData : Type ν}
    (p : Platform A M Double) (job : Job A M Double MetricData)
    (o : IsOrder job.compare job.compare_data) (allocates : (n : ℕ) → length (p.malloc n) ≡ n)
    (few : job.thread_count ≤ 2 ^ 31) where
  round_refines :
      (start : List (List A)) (s : ℕ) (order : List ℕ) (memory : List A)
      (segments : List SortableData) (blocks : List (List A))
      → 0 < s
      → s < job.thread_count
      → All (λ idx. idx < job.thread_count) order
      → IsOnce order
      → Kept (merge-IsCombine o) start job.thread_count s blocks
      → IsLaid (IsLive s order) memory segments blocks
      → Returns
          (λ r.
            IsLaid
              (IsLive s [])
              (r.0)
              (r.1)
              (join_round (merge job.compare job.compare_data) order job.thread_count s blocks))
          (psort_round p job order s memory segments)
  unfolding psort_round join_round
  round_refines start s [] memory segments blocks hs small inside once kept laid = returns laid
  round_refines start s (idx ∷ order) memory segments blocks hs small inside once kept laid =
      Returns-then
        (turn_refines job.compare job.compare_data p.malloc allocates job.thread_count s idx order
          memory segments blocks few kept.size hs small kept.emptied inside.0 once.0 laid)
        (λ r next.
          round_refines start s order (r.0) (r.1)
            (join_thread (merge job.compare job.compare_data) job.thread_count s idx blocks) hs
            small inside.1 once.1
            (join_thread-Kept (merge-IsCombine o) start job.thread_count s idx blocks hs kept) next)

  -- The array and the segments stand for the blocks that the tree of merges ends with.
  pub record IsMergedTree (fuel : ℕ) (order : ℕ → List ℕ) (s : ℕ) (blocks : List (List A))
      (result : List A × List SortableData) : Type ℓ where
    pub final : List (List A)
    pub tree :
        join_rounds (merge job.compare job.compare_data) fuel order job.thread_count s blocks
        ≡ ok final
    pub count : length final ≡ job.thread_count
    pub laid : IsLaid (λ k. k ≡ 0) (result.0) (result.1) final

  one_more_round :
      (fuel : ℕ) (order : ℕ → List ℕ) (s : ℕ) (blocks : List (List A))
      → s < job.thread_count
      → join_rounds (merge job.compare job.compare_data) (suc fuel) order job.thread_count s blocks
        ≡ join_rounds
            (merge job.compare job.compare_data)
            fuel
            order
            job.thread_count
            (2 * s)
            (join_round (merge job.compare job.compare_data) (order s) job.thread_count s blocks)
  unfolding join_rounds
  one_more_round fuel order s blocks h = rw (lt→ltb s job.thread_count h) refl

  no_more_round :
      (fuel : ℕ) (order : ℕ → List ℕ) (s : ℕ) (blocks : List (List A))
      → job.thread_count ≤ s
      → join_rounds (merge job.compare job.compare_data) (suc fuel) order job.thread_count s blocks
        ≡ ok blocks
  unfolding join_rounds
  no_more_round fuel order s blocks h = rw (le→ltb s job.thread_count h) refl

  rounds_refine :
      (fuel : ℕ) (start : List (List A)) (order : ℕ → List ℕ) (s : ℕ) (memory : List A)
      (segments : List SortableData) (blocks : List (List A))
      → job.thread_count - s < fuel
      → 0 < s
      → ((step : ℕ) → IsTurns job.thread_count (order step))
      → Kept (merge-IsCombine o) start job.thread_count s blocks
      → IsLaid (λ k. k % s ≡ 0) memory segments blocks
      → Returns (IsMergedTree fuel order s blocks) (psort_rounds p job fuel order s memory segments)
  unfolding psort_rounds
  rounds_refine zero start order s memory segments blocks hf hs turns kept laid =
      absurd (omega arith)
  rounds_refine (suc fuel) start order s memory segments blocks hf hs turns kept laid =
      elim (dec_lt s job.thread_count) [
        | no h ↦ rw (le→ltb s job.thread_count (omega arith)) (
            returns (record {
              final = blocks;
              tree = no_more_round fuel order s blocks (omega arith);
              count = kept.size;
              laid = record {
                place = laid.place;
                size = laid.size;
                pointers = λ k z. laid.pointers k (rw z (zero-mod s));
              };
            }))
        | yes h ↦
            let double : (s * 2) % 2 ^ 32 ≡ 2 * s = omega arith in
            let turn = turns s in
            let joined =
              join_round (merge job.compare job.compare_data) (order s) job.thread_count s blocks in
            let ready : IsLaid (IsLive s (order s)) memory segments blocks = record {
              place = laid.place;
              size = laid.size;
              pointers = λ k live. laid.pointers k live.0;
            } in
            rw (lt→ltb s job.thread_count h, double)
              (Returns-then
                (round_refines start s (order s) memory segments blocks hs h turn.inside turn.once
                  kept ready)
                (λ r next.
                  Returns-weaken
                    (λ result m. record {
                      final = m.final;
                      tree = one_more_round fuel order s blocks h ∙ m.tree;
                      count = m.count;
                      laid = m.laid;
                    })
                    (rounds_refine fuel start order (2 * s) (r.0) (r.1) joined (omega arith)
                      (omega arith) turns
                      (join_round_doubles (merge-IsCombine o) start (order s) job.thread_count s
                        blocks hs turn.every kept)
                      (record {
                        place = next.place;
                        size = next.size;
                        pointers = λ k even.
                            next.pointers k (even_multiple k s hs even, λ odd. absurd (odd even));
                      }))))
      ]

  -- The rounds of merging in psort_r, which work on the array and on the segments that refer to it, do
  -- to the blocks of the array what the tree of merges does to a list of blocks, and no thread reads
  -- the NULL of a segment that has been merged: for up to 2^31 threads and one sorted block for each of
  -- them, in whatever order the threads take their turns in a round. Afterwards the array is the
  -- blocks of the tree, and the segment of thread 0 is the first of them.
  pub psort_rounds-join_rounds :
      (order : ℕ → List ℕ) (memory : List A) (segments : List SortableData) (blocks : List (List A))
      → ((step : ℕ) → IsTurns job.thread_count (order step))
      → length blocks ≡ job.thread_count
      → All (IsSorted (Le job.compare job.compare_data)) blocks
      → IsLaid (λ k. Unit) memory segments blocks
      → Returns
          (IsMergedTree (suc job.thread_count) order 1 blocks)
          (psort_rounds p job (suc job.thread_count) order 1 memory segments)
  psort_rounds-join_rounds order memory segments blocks turns count sorted laid =
      rounds_refine (suc job.thread_count) blocks order 1 memory segments blocks (omega arith)
        (omega arith) turns
        (record {
          size = count;
          ordered = sorted;
          perm = Perm.rfl;
          emptied = λ k h. absurd (h (omega arith));
        })
        (record { place = laid.place; size = laid.size; pointers = λ k z. laid.pointers k tt })
