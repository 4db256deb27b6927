-- ===== src/Psort/Refinement.antt =====
-- The rounds of psort.c do to the array what the tree of merges does to its blocks.
use native.Mathlib.Decide.{dec_lt}
use native.Mathlib.Nat.{div-add-mod', mul-mod_left}
use sysprogramming_examples.Prelude.{
  ℕ, suc, ◌+◌, ◌*◌, ◌/◌, ◌%◌, ◌^◌, ◌≤◌, ◌<◌, ◌≡◌, ◌≢◌, ◌⊎◌, inl, inr, refl, sym, ap, ◌∙◌, ◌&&◌,
  List, [], ◌∷◌, ◌++◌, arith, ◌==◌, ltb, Bool-cases,
}
use sysprogramming_examples.Prelude.Run.{ok, Returns, returns}
use sysprogramming_examples.Memory.{length, take, drop, get_or, set, load}
use sysprogramming_examples.Memory.Laws.{length-set, length-append, Perm-length}
use sysprogramming_examples.Memory.Index.{load-get_or}
use sysprogramming_examples.SortCommon.{CompareFun3}
use sysprogramming_examples.Order.Merge.{merge, merge-perm}
use sysprogramming_examples.MergeTree.{Contains, join_thread}
use sysprogramming_examples.MergeTree.Contents.{concat, even_multiple}
use sysprogramming_examples.MergeTree.Blocks.{
  offset, length-concat-take, two_blocks, two_blocks_joined, offset_next,
}
use sysprogramming_examples.Psort.{SortableData, thread_round}
use sysprogramming_examples.Psort.Round.{segment, no_segment, thread_round-merge, thread_round_idle}
use sysprogramming_examples.Psort.Layout.{IsLaid, IsLive, joined_pointers, between_multiples}

-- Each thread has at most one turn in the list.
abbrev pub IsOnce : List ℕ → Type 0
IsOnce [] = Unit
IsOnce (idx ∷ order) = (¬ Contains idx order) × IsOnce order

step_multiple : (i s : ℕ) → i % s ≡ 0 → (i + s) % s ≡ 0
step_multiple i s h =
    let whole : i / s * s + i % s ≡ i = div-add-mod' i s in
    let more : i + s ≡ suc (i / s) * s = grind arith in
    ap (λ x. x % s) more ∙ mul-mod_left (suc (i / s)) s

module _ {ℓ κ} {A : Type ℓ} {M : Type κ} (compare : CompareFun3 A M) (arg : M) (malloc : ℕ → List A)
    (allocates : (n : ℕ) → length (malloc n) ≡ n) where
  module _ (n s idx : ℕ) (order : List ℕ) (memory : List A) (segments : List SortableData)
      (blocks : List (List A)) (few : n ≤ 2 ^ 31) (count : length blocks ≡ n) (hs : 0 < s)
      (empty : (k : ℕ) → k % s ≢ 0 → get_or blocks k [] ≡ [])
      (laid : IsLaid (IsLive s (idx ∷ order)) memory segments blocks) (even : idx % (2 * s) ≡ 0)
      (inside : idx + s < n) where
    nothing_between : (k : ℕ) → idx < k → k < idx + s → get_or blocks k [] ≡ []
    nothing_between k low high =
        empty k (between_multiples idx s k hs (even_multiple idx s hs even) low high)

    joined : List A
    joined = merge compare arg (get_or blocks idx []) (get_or blocks (idx + s) [])

    length-joined :
        length joined ≡ length (get_or blocks idx []) + length (get_or blocks (idx + s) [])
    unfolding joined
    length-joined =
        let l = get_or blocks idx [] in
        let r = get_or blocks (idx + s) [] in
        Perm-length (merge-perm compare arg l r) ∙ length-append l r

    own_segment :
        load segments idx
        ≡ ok (segment (length (concat (take idx blocks))) (length (get_or blocks idx [])))
    own_segment =
        load-get_or no_segment segments idx (omega (arith, laid.size))
        ∙ ap ok (
            laid.pointers idx (even_multiple idx s hs even, λ odd. absurd (odd even)) (omega arith))
        ∙ ap (λ m. ok (segment m (length (get_or blocks idx []))))
            (sym (length-concat-take blocks idx))

    other_segment :
        load segments (idx + s)
        ≡ ok (
            segment
              (length (concat (take idx blocks)) + length (get_or blocks idx []))
              (length (get_or blocks (idx + s) [])))
    other_segment =
        let live : IsLive s (idx ∷ order) (idx + s) =
          (step_multiple idx s (even_multiple idx s hs even), λ odd. inl (omega arith)) in
        let start : offset blocks (idx + s)
            ≡ length (concat (take idx blocks)) + length (get_or blocks idx []) =
          offset_next blocks idx (idx + s) (omega arith) (omega arith) nothing_between
          ∙ ap (λ m. m + length (get_or blocks idx [])) (sym (length-concat-take blocks idx)) in
        load-get_or no_segment segments (idx + s) (omega (arith, laid.size))
        ∙ ap ok (laid.pointers (idx + s) live (omega arith))
        ∙ ap (λ m. ok (segment m (length (get_or blocks (idx + s) [])))) start

    -- What the turn leaves in the memory and in the segments.
    turn_result :
        thread_round malloc compare arg n idx s memory segments
        ≡ ok (
          concat (set (set blocks idx joined) (idx + s) []),
          set (set segments idx (segment (offset blocks idx) (length joined))) (idx + s) no_segment,
        )
    unfolding joined
    turn_result =
        let l = get_or blocks idx [] in
        let r = get_or blocks (idx + s) [] in
        let before = concat (take idx blocks) in
        let after = concat (drop (suc (idx + s)) blocks) in
        let place = two_blocks blocks idx (idx + s) (omega arith) (omega arith) nothing_between in
        let left : (before ++ joined) ++ after ≡ concat (set (set blocks idx joined) (idx + s) []) =
          sym (
            two_blocks_joined blocks idx (idx + s) joined (omega arith) (omega arith)
              nothing_between) in
        ap (λ m. thread_round malloc compare arg n idx s m segments) (laid.place ∙ place)
        ∙ thread_round-merge compare arg malloc n idx s before l r after segments allocates few
            (laid.size ∙ count) hs even inside own_segment other_segment
        ∙ ap
            (λ m. ok (
              m,
              set (set segments idx (segment (length before) (length l + length r))) (idx + s)
                  no_segment,
            ))
            left
        ∙ ap
            (λ m. ok (
              concat (set (set blocks idx joined) (idx + s) []),
              set (set segments idx (segment m (length l + length r))) (idx + s) no_segment,
            ))
            (length-concat-take blocks idx)
        ∙ ap
            (λ m. ok (
              concat (set (set blocks idx joined) (idx + s) []),
              set (set segments idx (segment (offset blocks idx) m)) (idx + s) no_segment,
            ))
            (sym length-joined)

    -- The turn of a thread that merges.
    merging_turn :
        ¬ Contains idx order
        → Returns
            (λ r. IsLaid (IsLive s order) (r.0) (r.1) (set (set blocks idx joined) (idx + s) []))
            (thread_round malloc compare arg n idx s memory segments)
    merging_turn fresh =
        let v = joined in
        let same_count : length (set (set blocks idx v) (idx + s) []) ≡ length blocks =
          length-set (set blocks idx v) (idx + s) [] ∙ length-set blocks idx v in
        let own = segment (offset blocks idx) (length v) in
        rw turn_result (
          returns (record {
            place = refl;
            size =
                length-set (set segments idx own) (idx + s) no_segment
                ∙ length-set segments idx own
                ∙ laid.size
                ∙ sym same_count;
            pointers = λ k live hk.
                joined_pointers s idx order segments blocks v hs even (omega arith) fresh
                  length-joined laid.size laid.pointers k live (omega arith);
          }))

  -- The turn of any thread.
  pub turn_refines :
      (n s idx : ℕ) (order : List ℕ) (memory : List A) (segments : List SortableData)
      (blocks : List (List A))
      → n ≤ 2 ^ 31
      → length blocks ≡ n
      → 0 < s
      → s < n
      → ((k : ℕ) → k % s ≢ 0 → get_or blocks k [] ≡ [])
      → idx < n
      → ¬ Contains idx order
      → IsLaid (IsLive s (idx ∷ order)) memory segments blocks
      → Returns
          (λ r.
            IsLaid (IsLive s order) (r.0) (r.1) (join_thread (merge compare arg) n s idx blocks))
          (thread_round malloc compare arg n idx s memory segments)
  unfolding join_thread joined
  turn_refines n s idx order memory segments blocks few count hs small empty hi fresh laid =
      elim (Bool-cases ((idx % (2 * s) == 0) && ltb (idx + s) n)) [
        | inl e ↦ rw e (
            merging_turn n s idx order memory segments blocks few count hs empty laid (ground arith)
              (ground arith) fresh)
        | inr e ↦
            let idle : (idx % (2 * s) ≢ 0) ⊎ (n ≤ idx + s) = elim (dec_lt (idx + s) n) [
              | yes h ↦ inl (λ z. ground arith)
              | no h ↦ inr (omega arith)
            ] in
            rw (e, thread_round_idle compare arg malloc n idx s memory segments few hi small idle)
              (returns (record {
                place = laid.place;
                size = laid.size;
                pointers = λ k live. laid.pointers k (live.0, λ odd. inr (live.1 odd));
              }))
      ]
