-- ===== src/Psort/Sorting.antt =====
-- The threads of psort.c before the first barrier: each sorts its own segment.
use mathlib.Core.List.Perm
use sysprogramming_examples.Prelude.{
  ℕ, suc, ◌+◌, ◌^◌, ◌≤◌, ◌<◌, ◌≡◌, ◌≢◌, ◌⊎◌, inl, inr, refl, sym, ap, ◌∙◌, List, [], ◌∷◌, ◌++◌,
  Perm, arith, le→leb, Bool-cases, ◌==◌,
}
use sysprogramming_examples.Prelude.Run.{Run, ok, Returns, returns, Returns-then, Returns-weaken}
use sysprogramming_examples.Memory.{length, take, drop, get_or, set, load, on_part}
use sysprogramming_examples.Memory.Laws.{
  length-set, length-append, take-append, drop-append, drop-drop, Perm-length,
}
use sysprogramming_examples.Memory.Index.{load-get_or, get_or-set}
use sysprogramming_examples.Order.{IsOrder, IsSorted, Le, Sorts, All}
use sysprogramming_examples.Isort.Laws.{isort_r-StablySorts}
use sysprogramming_examples.Msort.Laws.{msort_r-StablySorts}
use sysprogramming_examples.Hsort.Laws.{hsort_r-Sorts}
use sysprogramming_examples.TernaryHsort.Laws.{ternary_hsort_r-Sorts}
use sysprogramming_examples.MergeTree.{Contains}
use sysprogramming_examples.MergeTree.Contents.{concat}
use sysprogramming_examples.MergeTree.Blocks.{
  offset, length-concat-take, concat_at, concat-set_at, offset-set_same, length-set_same,
}
use sysprogramming_examples.Psort.{SortableData}
use sysprogramming_examples.Psort.Round.{segment, no_segment}
use sysprogramming_examples.Psort.Parallel.{
  SortType, heap_sort, ternary_heap_sort, quick_sort, flash_sort, insertion_sort, merge_sort, other,
  Platform, Job, sort_by, thread_sort, sort_phase,
}
use sysprogramming_examples.Psort.Layout.{IsLaid}

module _ {ℓ κ} {A : Type ℓ} (P : List A → Type κ) where
  -- The array after work on a part of it.
  pub record IsPartChanged (before after result : List A) : Type (ℓ ⊔ κ) where
    pub part : List A
    pub place : result ≡ before ++ (part ++ after)
    pub post : P part

  -- Work on a part of an array is work on the part alone.
  pub on_part-IsPartChanged :
      (work : List A → ℕ → Run (List A)) (before part after : List A) (start n : ℕ)
      → start ≡ length before
      → n ≡ length part
      → Returns P (work part n)
      → Returns (IsPartChanged before after) (on_part work (before ++ (part ++ after)) start n)
  unfolding on_part
  on_part-IsPartChanged work before part after start n hs hn h =
      let whole = before ++ (part ++ after) in
      let size : length whole ≡ length before + (length part + length after) =
        length-append before (part ++ after)
        ∙ ap (λ m. length before + m) (length-append part after) in
      let behind : drop start whole ≡ part ++ after = drop-append start before (part ++ after) hs in
      let rest : drop (start + n) whole ≡ after =
        sym (drop-drop n start (start + n) whole (omega arith))
        ∙ ap (drop n) behind
        ∙ drop-append n part after hn in
      rw
        (
          le→leb (start + n) (length whole) (omega arith),
          behind,
          take-append n part after hn,
          rest,
          take-append start before (part ++ after) hs,
        )
        (Returns-then h
          (λ changed post. returns (record { part = changed; place = refl; post = post })))

module _ {ℓ κ μ ν} {A : Type ℓ} {M : Type κ} {Double : Type μ} {MetricData : Type ν}
    (p : Platform A M Double) (job : Job A M Double MetricData)
    (o : IsOrder job.compare job.compare_data) (allocates : (n : ℕ) → length (p.malloc n) ≡ n)
    (quick : (a : List A)
      → Sorts job.compare job.compare_data a
          (p.qsort_r a (length a) job.compare job.compare_data)) where
  -- The sort types but flashsort sort.
  pub sort_by-Sorts :
      (sort_type : SortType) (a : List A)
      → sort_type ≢ flash_sort
      → sort_type ≢ other
      → length a ≤ 2 ^ 62
      → Returns (Sorts job.compare job.compare_data a) (sort_by p job sort_type a (length a))
  unfolding sort_by
  sort_by-Sorts heap_sort a f u h = hsort_r-Sorts o a h
  sort_by-Sorts ternary_heap_sort a f u h = ternary_hsort_r-Sorts o a h
  sort_by-Sorts quick_sort a f u h = returns (quick a)
  sort_by-Sorts flash_sort a f u h = absurd (f refl)
  sort_by-Sorts insertion_sort a f u h = Returns-weaken (λ b s. s.sorts) (isort_r-StablySorts o a)
  sort_by-Sorts merge_sort a f u h =
      Returns-weaken (λ b s. s.sorts)
        (msort_r-StablySorts o a (p.malloc (length a)) h (allocates (length a)))
  sort_by-Sorts other a f u h = absurd (u refl)

  -- The array stands for blocks that have the elements of `start`.
  pub record IsPhase (start : List A) (n : ℕ) (segments : List SortableData)
      (blocks : List (List A)) (memory : List A) : Type ℓ where
    pub laid : IsLaid (λ k. Unit) memory segments blocks
    pub count : length blocks ≡ n
    pub perm : Perm memory start

  -- The blocks after some threads have sorted theirs.
  pub record IsSortedPhase (start : List A) (n : ℕ) (segments : List SortableData)
      (before : List (List A)) (order : List ℕ) (memory : List A) : Type ℓ where
    pub blocks : List (List A)
    pub phase : IsPhase start n segments blocks memory
    pub sorted :
        (k : ℕ)
        → Contains k order ⊎ IsSorted (Le job.compare job.compare_data) (get_or before k [])
        → IsSorted (Le job.compare job.compare_data) (get_or blocks k [])

  module _ (start : List A) (n : ℕ) (segments : List SortableData) (long : length start ≤ 2 ^ 62)
      (known : job.selected_sort_type ≢ other)
      (no_flash : job.selected_sort_type ≢ flash_sort) where
    sorted_set :
        (idx k : ℕ) (blocks : List (List A)) (part : List A)
        → idx < length blocks
        → IsSorted (Le job.compare job.compare_data) part
        → Contains k (idx ∷ []) ⊎ IsSorted (Le job.compare job.compare_data) (get_or blocks k [])
        → IsSorted (Le job.compare job.compare_data) (get_or (set blocks idx part) k [])
    sorted_set idx k blocks part hi sorted h = elim (Bool-cases (idx == k)) [
      | inl e ↦
          let here : get_or (set blocks idx part) k [] ≡ part =
            ground (arith, get_or-set [] blocks idx k part hi) in
          rw here sorted
      | inr e ↦
          let there : get_or (set blocks idx part) k [] ≡ get_or blocks k [] =
            ground (arith, get_or-set [] blocks idx k part hi) in
          rw there (elim h [
            | inr before ↦ before
            | inl c ↦ elim c [ inl same ↦ absurd (ground arith) | inr none_left ↦ absurd none_left ]
          ])
    ]

    -- One block has been sorted.
    IsPhase-set :
        (idx : ℕ) (blocks : List (List A)) (memory part : List A)
        → idx < n
        → IsPhase start n segments blocks memory
        → Sorts job.compare job.compare_data (get_or blocks idx []) part
        → IsPhase start n segments
            (set blocks idx part)
            (concat (take idx blocks) ++ (part ++ concat (drop (suc idx) blocks)))
    IsPhase-set idx blocks memory part hi phase sorts =
        let before = concat (take idx blocks) in
        let after = concat (drop (suc idx) blocks) in
        let inside : idx < length blocks = omega (arith, phase.count) in
        let same : length part ≡ length (get_or blocks idx []) = Perm-length sorts.perm in
        let place = phase.laid.place ∙ concat_at blocks idx inside in
        record {
          laid = record {
            place = sym (concat-set_at blocks idx part inside);
            size = phase.laid.size ∙ sym (length-set blocks idx part);
            pointers = λ k t hk.
                phase.laid.pointers k t (omega (arith, length-set blocks idx part))
                ∙ ap (λ m. segment m (length (get_or blocks k [])))
                    (sym (offset-set_same blocks idx k part inside same))
                ∙ ap (segment (offset (set blocks idx part) k))
                    (sym (length-set_same blocks idx k part inside same));
          };
          count = length-set blocks idx part ∙ phase.count;
          perm =
              Perm.trans (rw (place) (Perm.append_left before (Perm.append_right after sorts.perm)))
                phase.perm;
        }

    thread_sort-IsSortedPhase :
        (idx : ℕ) (blocks : List (List A)) (memory : List A)
        → idx < n
        → IsPhase start n segments blocks memory
        → Returns
            (IsSortedPhase start n segments blocks (idx ∷ []))
            (thread_sort p job idx memory segments)
    unfolding thread_sort
    thread_sort-IsSortedPhase idx blocks memory hi phase =
        let l = get_or blocks idx [] in
        let before = concat (take idx blocks) in
        let after = concat (drop (suc idx) blocks) in
        let inside : idx < length blocks = omega (arith, phase.count) in
        let place : memory ≡ before ++ (l ++ after) =
          phase.laid.place ∙ concat_at blocks idx inside in
        let own : load segments idx ≡ ok (segment (offset blocks idx) (length l)) =
          load-get_or no_segment segments idx (omega (arith, phase.laid.size))
          ∙ ap ok (phase.laid.pointers idx tt inside) in
        let short : length l ≤ 2 ^ 62 = omega (
          arith,
          long,
          Perm-length phase.perm,
          ap length place,
          length-append before (l ++ after),
          length-append l after,
        ) in
        let changed =
          on_part-IsPartChanged (Sorts job.compare job.compare_data l)
            (sort_by p job job.selected_sort_type) before l after (offset blocks idx) (length l)
            (sym (length-concat-take blocks idx)) refl
            (sort_by-Sorts job.selected_sort_type l no_flash known short) in
        rw (own, place)
          (Returns-weaken
            (λ r c. record {
              blocks = set blocks idx c.part;
              phase = rw c.place (IsPhase-set idx blocks memory c.part hi phase c.post);
              sorted = λ k h.
                  sorted_set idx k blocks c.part (omega (arith, phase.count)) c.post.sorted h;
            })
            changed)

    -- When all threads of `order` have had their turns, their blocks are sorted.
    pub sort_phase-IsSortedPhase :
        (order : List ℕ) (blocks : List (List A)) (memory : List A)
        → All (λ idx. idx < n) order
        → IsPhase start n segments blocks memory
        → Returns
            (IsSortedPhase start n segments blocks order)
            (sort_phase p job order memory segments)
    unfolding sort_phase
    sort_phase-IsSortedPhase [] blocks memory inside phase = returns (record {
      blocks = blocks;
      phase = phase;
      sorted = λ k h. elim h [ inl c ↦ absurd c | inr s ↦ s ];
    })
    sort_phase-IsSortedPhase (idx ∷ order) blocks memory inside phase =
        Returns-then (thread_sort-IsSortedPhase idx blocks memory inside.0 phase) (λ r first.
          Returns-weaken
            (λ result rest. record {
              blocks = rest.blocks;
              phase = rest.phase;
              sorted = λ k h. rest.sorted k (elim h [
                | inl c ↦ elim c [
                  | inl same ↦ inr (first.sorted k (inl (inl same)))
                  | inr later ↦ inl later
                ]
                | inr s ↦ inr (first.sorted k (inr s))
              ]);
            })
            (sort_phase-IsSortedPhase order first.blocks r inside.1 first.phase))
