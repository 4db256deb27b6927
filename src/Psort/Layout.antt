-- ===== src/Psort/Layout.antt =====
-- How the array and the segments of psort.c stand for blocks, one after another, while a round
-- merges them.
use native.Mathlib.Decide.{dec_lt}
use native.Mathlib.Nat.{mod-eq_of_lt, mul-add-mod_self_right, div-add-mod'}
use sysprogramming_examples.Prelude.{
  ℕ, ◌+◌, ◌-◌, ◌*◌, ◌/◌, ◌%◌, ◌<◌, ◌≡◌, ◌≢◌, inr, sym, ap, ◌∙◌, List, [], ◌∷◌, arith,
}
use sysprogramming_examples.Memory.{length, get_or, set}
use sysprogramming_examples.Memory.Laws.{length-set}
use sysprogramming_examples.Memory.Index.{get_or-set}
use sysprogramming_examples.MergeTree.{Contains}
use sysprogramming_examples.MergeTree.Contents.{concat, even_multiple, next_multiple}
use sysprogramming_examples.MergeTree.Blocks.{offset, offset-set_before, offset-set_after}
use sysprogramming_examples.Psort.{SortableData}
use sysprogramming_examples.Psort.Round.{segment, no_segment}

module _ {ℓ} {A : Type ℓ} where
  -- The array is the blocks, and the segment of each thread that is `Live` has the place and the length
  -- of its block.
  pub record IsLaid (Live : ℕ → Type 0) (memory : List A) (segments : List SortableData)
      (blocks : List (List A)) : Type ℓ where
    pub place : memory ≡ concat blocks
    pub size : length segments ≡ length blocks
    pub pointers :
        (k : ℕ)
        → Live k
        → k < length blocks
        → get_or segments k no_segment ≡ segment (offset blocks k) (length (get_or blocks k []))

-- The threads whose segments may still be read in the round of step `s` where the turns of `order`
-- are left.
abbrev pub IsLive : (s : ℕ) → (order : List ℕ) → ℕ → Type 0
IsLive s order k = (k % s ≡ 0) × (k % (2 * s) ≢ 0 → Contains (k - s) order)

-- Between two neighbours of a round no number is divisible by the step.
pub between_multiples : (i s k : ℕ) → 0 < s → i % s ≡ 0 → i < k → k < i + s → k % s ≢ 0
between_multiples i s k hs hi low high e =
    let whole : i / s * s + i % s ≡ i = div-add-mod' i s in
    let front : k ≡ i / s * s + (k - i) = omega arith in
    let rest : k % s ≡ k - i =
      ap (λ x. x % s) front
      ∙ mul-add-mod_self_right (i / s) s (k - i)
      ∙ mod-eq_of_lt (omega arith) in
    omega arith

module _ {ℓ} {A : Type ℓ} (s i : ℕ) (order : List ℕ) (segments : List SortableData)
    (blocks : List (List A)) (v : List A) (hs : 0 < s) (even : i % (2 * s) ≡ 0)
    (inside : i + s < length blocks) (fresh : ¬ Contains i order)
    (sum : length v ≡ length (get_or blocks i []) + length (get_or blocks (i + s) []))
    (size : length segments ≡ length blocks) where
  joined_segments : List SortableData
  joined_segments = set (set segments i (segment (offset blocks i) (length v))) (i + s) no_segment

  joined_blocks : List (List A)
  joined_blocks = set (set blocks i v) (i + s) []

  -- A block before or behind the two keeps its place and its segment.
  other_pointer :
      (k : ℕ)
      → k ≢ i
      → k ≢ i + s
      → offset joined_blocks k ≡ offset blocks k
      → get_or segments k no_segment ≡ segment (offset blocks k) (length (get_or blocks k []))
      → get_or joined_segments k no_segment
        ≡ segment (offset joined_blocks k) (length (get_or joined_blocks k []))
  unfolding joined_segments joined_blocks
  other_pointer k own theirs o old =
      let own_segment = segment (offset blocks i) (length v) in
      let segment_kept : get_or joined_segments k no_segment ≡ get_or segments k no_segment =
        ground (
          arith,
          get_or-set no_segment (set segments i own_segment) (i + s) k no_segment
              (omega (arith, size, length-set segments i own_segment)),
          get_or-set no_segment segments i k own_segment (omega (arith, size)),
        ) in
      let block_kept : get_or joined_blocks k [] ≡ get_or blocks k [] = ground (
        arith,
        get_or-set [] (set blocks i v) (i + s) k [] (omega (arith, length-set blocks i v)),
        get_or-set [] blocks i k v (omega arith),
      ) in
      segment_kept
      ∙ old
      ∙ ap (λ n. segment n (length (get_or blocks k []))) (sym o)
      ∙ ap (λ b. segment (offset joined_blocks k) (length b)) (sym block_kept)

  own_pointer :
      get_or joined_segments i no_segment
      ≡ segment (offset joined_blocks i) (length (get_or joined_blocks i []))
  unfolding joined_segments joined_blocks
  own_pointer =
      let own_segment = segment (offset blocks i) (length v) in
      let segment_set : get_or joined_segments i no_segment ≡ own_segment = ground (
        arith,
        get_or-set no_segment (set segments i own_segment) (i + s) i no_segment
            (omega (arith, size, length-set segments i own_segment)),
        get_or-set no_segment segments i i own_segment (omega (arith, size)),
      ) in
      let block_set : get_or joined_blocks i [] ≡ v = ground (
        arith,
        get_or-set [] (set blocks i v) (i + s) i [] (omega (arith, length-set blocks i v)),
        get_or-set [] blocks i i v (omega arith),
      ) in
      let o : offset joined_blocks i ≡ offset blocks i =
        offset-set_before (set blocks i v) (i + s) i [] (omega arith)
        ∙ offset-set_before blocks i i v (omega arith) in
      segment_set
      ∙ ap (λ n. segment n (length v)) (sym o)
      ∙ ap (λ b. segment (offset joined_blocks i) (length b)) (sym block_set)

  offset_behind : (k : ℕ) → i + s < k → offset joined_blocks k ≡ offset blocks k
  unfolding joined_blocks
  offset_behind k h =
      let other : get_or (set blocks i v) (i + s) [] ≡ get_or blocks (i + s) [] =
        ground (arith, get_or-set [] blocks i (i + s) v (omega arith)) in
      omega (
        arith,
        sum,
        ap length other,
        offset-set_after blocks i k v (omega arith) (omega arith),
        offset-set_after (set blocks i v) (i + s) k [] (omega arith)
            (omega (arith, length-set blocks i v)),
      )

  offset_before : (k : ℕ) → k < i → offset joined_blocks k ≡ offset blocks k
  unfolding joined_blocks
  offset_before k h =
      offset-set_before (set blocks i v) (i + s) k [] (omega arith)
      ∙ offset-set_before blocks i k v (omega arith)

  -- Of the two, the other one is not live any more.
  not_other : (k : ℕ) → IsLive s order k → i + s ≡ k → ⊥
  not_other k live there =
      let rest : k % (2 * s) ≡ s = ap (λ x. x % (2 * s)) (sym there) ∙ next_multiple i s hs even in
      let back : k - s ≡ i = omega arith in fresh (rw (← back) (live.1 (λ e. absurd (omega arith))))

  -- The segments of the threads that are live after two neighbours have been merged.
  pub joined_pointers :
      ((k : ℕ)
        → IsLive s (i ∷ order) k
        → k < length blocks
        → get_or segments k no_segment ≡ segment (offset blocks k) (length (get_or blocks k [])))
      → (k : ℕ) → IsLive s order k
      → k < length blocks
      → get_or
          (set (set segments i (segment (offset blocks i) (length v))) (i + s) no_segment)
          k
          no_segment
        ≡ segment
            (offset (set (set blocks i v) (i + s) []) k)
            (length (get_or (set (set blocks i v) (i + s) []) k []))
  unfolding joined_segments joined_blocks
  joined_pointers old k live hk =
      let before_turn : IsLive s (i ∷ order) k = (live.0, λ m. inr (live.1 m)) in
      elim (dec_lt k i) [
        | yes low ↦
            other_pointer k (omega arith) (omega arith) (offset_before k low) (old k before_turn hk)
        | no h ↦ elim (dec_lt i k) [
          | no e ↦
              let same : i ≡ k = omega arith in
              ap (λ x. get_or joined_segments x no_segment) (sym same)
              ∙ own_pointer
              ∙ ap (λ x. segment (offset joined_blocks x) (length (get_or joined_blocks x []))) same
          | yes high ↦ elim (dec_lt k (i + s)) [
            | yes inner ↦
                absurd (between_multiples i s k hs (even_multiple i s hs even) high inner live.0)
            | no e ↦ elim (dec_lt (i + s) k) [
              | yes far ↦
                  other_pointer k (omega arith) (omega arith) (offset_behind k far)
                    (old k before_turn hk)
              | no f ↦ absurd (not_other k live (omega arith))
            ]
          ]
        ]
      ]
