-- ===== src/Psort/Round.antt =====
-- A thread that merges its segment with another one.
use sysprogramming_examples.Prelude.{
  ℕ, suc, ◌+◌, ◌*◌, ◌%◌, ◌^◌, ◌≤◌, ◌<◌, ◌≡◌, refl, sym, ◌∙◌, false, ◌&&◌, List, ◌++◌, none, some,
  Perm, arith, ◌==◌, ltb, lt→ltb, ◌≢◌, ◌⊎◌,
}
use sysprogramming_examples.Prelude.Run.{ok, Returns, returns}
use sysprogramming_examples.Memory.{length, set, load, store}
use sysprogramming_examples.Memory.Laws.{length-set}
use sysprogramming_examples.SortCommon.{CompareFun3}
use sysprogramming_examples.Order.{IsSorted, Le, IsOrder, same, select}
use sysprogramming_examples.Order.Stable.{select-append}
use sysprogramming_examples.Order.Merge.{merge, merge-perm, merge-IsSorted, select-merge}
use sysprogramming_examples.Msort.Pair.{merge_pair}
use sysprogramming_examples.Psort.{SortableData, psort_merge_loop, merge_segments, thread_round}
use sysprogramming_examples.Psort.Loop.{psort_merge_loop-merge_loop}

-- The two segments that are merged, and the one that is left.
abbrev pub segment : (base nmemb : ℕ) → SortableData
segment base nmemb = record { base = some base; nmemb = nmemb }

abbrev pub no_segment : SortableData
no_segment = record { base = none; nmemb = 0 }

module _ {ℓ κ} {A : Type ℓ} {M : Type κ} (compare : CompareFun3 A M) (arg : M) where
  merge_segments-merge :
      (malloc : ℕ → List A) (idx other : ℕ) (before l r after : List A)
      (segments : List SortableData)
      → ((n : ℕ) → length (malloc n) ≡ n)
      → idx < length segments
      → other < length segments
      → load segments idx ≡ ok (segment (length before) (length l))
      → load segments other ≡ ok (segment (length before + length l) (length r))
      → merge_segments malloc compare arg idx other (before ++ (l ++ (r ++ after))) segments
        ≡ ok (
          (before ++ merge compare arg l r) ++ after,
          set (set segments idx (segment (length before) (length l + length r))) other no_segment,
        )
  unfolding merge_segments store
  merge_segments-merge malloc idx other before l r after segments hm hi ho own theirs =
      let m = length l in
      let n = length r in
      let memory = before ++ (l ++ (r ++ after)) in
      let scratch = malloc (m + n) in
      let (d, loop, size, back) =
        merge_pair compare arg before l r after scratch (length before) (length before + m) m n refl
          refl refl refl (omega (arith, hm (m + n))) in
      let merged : psort_merge_loop (suc (m + n)) memory compare arg m n 0 0 0 (length before)
            (length before + m) scratch
          ≡ ok d =
        psort_merge_loop-merge_loop compare arg memory (suc (m + n)) m n 0 0 0 (length before)
          (length before + m) scratch
        ∙ loop in
      let first = set segments idx (segment (length before) (m + n)) in
      rw (
        own,
        theirs,
        merged,
        back,
        lt→ltb idx (length segments) hi,
        lt→ltb other (length first)
            (omega (arith, length-set segments idx (segment (length before) (m + n)))),
      )

  -- In the round for `step`, thread `idx` merges its segment `l` with the segment `r` of the thread
  -- `idx` + `step`, if there is one and `idx` is divisible by 2 * `step`: where the segments follow one
  -- another in the array, their place holds the merged list, nothing else in the array changes, its own
  -- segment has the elements of both and the other one has none. There are at most 2^31 threads.
  pub thread_round-merge :
      (malloc : ℕ → List A) (thread_count idx step : ℕ) (before l r after : List A)
      (segments : List SortableData)
      → ((n : ℕ) → length (malloc n) ≡ n)
      → thread_count ≤ 2 ^ 31
      → length segments ≡ thread_count
      → 0 < step
      → idx % (2 * step) ≡ 0
      → idx + step < thread_count
      → load segments idx ≡ ok (segment (length before) (length l))
      → load segments (idx + step) ≡ ok (segment (length before + length l) (length r))
      → thread_round malloc compare arg thread_count idx step
          (before ++ (l ++ (r ++ after)))
          segments
        ≡ ok (
          (before ++ merge compare arg l r) ++ after,
          set
              (set segments idx (segment (length before) (length l + length r)))
              (idx + step)
              no_segment,
        )
  unfolding thread_round
  thread_round-merge malloc thread_count idx step before l r after segments hm ht hs hp hd hi own
        theirs =
      let double : (2 * step) % 2 ^ 32 ≡ 2 * step = omega arith in
      let other : (idx + step) % 2 ^ 32 ≡ idx + step = omega arith in
      rw (double, other, hd, lt→ltb (idx + step) thread_count hi)
        (merge_segments-merge malloc idx (idx + step) before l r after segments hm (omega arith)
          (omega arith) own theirs)

  -- A thread that has nothing to merge in a round, since its number is not divisible by 2 * `step` or
  -- no thread has the number `idx` + `step`, changes nothing. There are at most 2^31 threads.
  pub thread_round_idle :
      (malloc : ℕ → List A) (thread_count idx step : ℕ) (memory : List A)
      (segments : List SortableData)
      → thread_count ≤ 2 ^ 31
      → idx < thread_count
      → step < thread_count
      → (idx % (2 * step) ≢ 0) ⊎ (thread_count ≤ idx + step)
      → thread_round malloc compare arg thread_count idx step memory segments
        ≡ ok (memory, segments)
  unfolding thread_round
  thread_round_idle malloc thread_count idx step memory segments ht hi hs h =
      let double : (2 * step) % 2 ^ 32 ≡ 2 * step = omega arith in
      let other : (idx + step) % 2 ^ 32 ≡ idx + step = omega arith in
      let no_merge : ((idx % (2 * step) == 0) && ltb (idx + step) thread_count) ≡ false =
        ground arith in
      rw (double, other, no_merge)

module _ {ℓ κ} {A : Type ℓ} {M : Type κ} {compare : CompareFun3 A M} {arg : M}
    (o : IsOrder compare arg) where
  -- The array and the segments after the segments `l` and `r` of two threads are merged.
  pub record IsMerged (idx other : ℕ) (before l r after : List A) (segments : List SortableData)
      (result : List A × List SortableData) : Type (ℓ ⊔ κ) where
    pub block : List A
    pub place : result.0 ≡ (before ++ block) ++ after
    pub sorted : IsSorted (Le compare arg) block
    pub perm : Perm block (l ++ r)
    pub stable : (x : A) → select (same compare arg x) block ≡ select (same compare arg x) (l ++ r)
    pub left :
        result.1
        ≡ set (set segments idx (segment (length before) (length l + length r))) other no_segment

  -- If the segments `l` and `r` are sorted by a total preorder, thread `idx` leaves in their place one
  -- sorted segment with the elements of both, where those that compare equal keep their order; nothing
  -- else in the array changes. The conditions are those of a thread that merges: its number is
  -- divisible by 2 * `step`, the segment of thread `idx` + `step` follows its own, and there are at most
  -- 2^31 threads.
  pub thread_round-IsMerged :
      (malloc : ℕ → List A) (thread_count idx step : ℕ) (before l r after : List A)
      (segments : List SortableData)
      → ((n : ℕ) → length (malloc n) ≡ n)
      → thread_count ≤ 2 ^ 31
      → length segments ≡ thread_count
      → 0 < step
      → idx % (2 * step) ≡ 0
      → idx + step < thread_count
      → load segments idx ≡ ok (segment (length before) (length l))
      → load segments (idx + step) ≡ ok (segment (length before + length l) (length r))
      → IsSorted (Le compare arg) l
      → IsSorted (Le compare arg) r
      → Returns (IsMerged idx (idx + step) before l r after segments) (
          thread_round malloc compare arg thread_count idx step
            (before ++ (l ++ (r ++ after)))
            segments)
  thread_round-IsMerged malloc thread_count idx step before l r after segments hm ht hs hp hd hi own
        theirs sl sr =
      rw
        (thread_round-merge compare arg malloc thread_count idx step before l r after segments hm ht
          hs hp hd hi own theirs)
        (returns (record {
          block = merge compare arg l r;
          place = refl;
          sorted = merge-IsSorted o l r sl sr;
          perm = merge-perm compare arg l r;
          stable = λ x. select-merge o x l r sl ∙ sym (select-append (same compare arg x) l r);
          left = refl;
        }))
