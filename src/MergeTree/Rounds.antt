-- ===== src/MergeTree/Rounds.antt =====
-- After the rounds the first block holds all elements in order.
use mathlib.Core.List.Perm
use native.Mathlib.Decide.{dec_lt}
use native.Mathlib.Nat.{mod-eq_of_lt}
use sysprogramming_examples.Prelude.{
  ℕ, zero, suc, ◌+◌, ◌-◌, ◌*◌, ◌%◌, ◌≤◌, ◌<◌, ◌≡◌, inl, inr, refl, sym, ap, ◌∙◌, List, [], ◌∷◌,
  Perm, arith, ◌==◌, Bool-cases, lt→ltb, le→ltb,
}
use sysprogramming_examples.Prelude.Run.{Returns, returns}
use sysprogramming_examples.Memory.{length, get_or}
use sysprogramming_examples.Order.{All}
use sysprogramming_examples.MergeTree.{Contains, IsCombine, join_round, join_rounds}
use sysprogramming_examples.MergeTree.Contents.{concat, get_or-All, concat-first, odd_multiple}
use sysprogramming_examples.MergeTree.Laws.{Kept, join_round-Kept, join_round_empties}

module _ {ℓ} {A : Type ℓ} where
  pub get_or_outside :
      (blocks : List (List A)) (k : ℕ) → length blocks ≤ k → get_or blocks k [] ≡ []
  get_or_outside [] k h = refl
  get_or_outside (s ∷ blocks) zero h = absurd (omega arith)
  get_or_outside (s ∷ blocks) (suc k) h = get_or_outside blocks k (omega arith)

  -- The first block of `blocks` has the elements of `start`, in order, and the others have none.
  pub record IsMergedSort {κ} (Ordered : List A → Type κ) (start blocks : List (List A))
      : Type (ℓ ⊔ κ) where
    pub ordered : Ordered (get_or blocks 0 [])
    pub perm : Perm (get_or blocks 0 []) (concat start)
    pub alone : concat blocks ≡ get_or blocks 0 []

  all_in_first :
      (blocks : List (List A))
      → ((k : ℕ) → get_or blocks (suc k) [] ≡ [])
      → concat blocks ≡ get_or blocks 0 []
  all_in_first [] h = refl
  all_in_first (s ∷ blocks) h = concat-first s blocks h

module _ {ℓ κ} {A : Type ℓ} {Ordered : List A → Type κ} {combine : List A → List A → List A}
    (law : IsCombine Ordered combine) where
  -- After a round in which each thread has taken its turn, twice the step is reached.
  pub join_round_doubles :
      (start : List (List A)) (order : List ℕ) (n s : ℕ) (blocks : List (List A))
      → 0 < s
      → ((idx : ℕ) → idx < n → Contains idx order)
      → Kept law start n s blocks
      → Kept law start n (2 * s) (join_round combine order n s blocks)
  join_round_doubles start order n s blocks hs all k =
      let next = join_round-Kept law start order n s blocks hs k in
      record {
        size = next.size;
        ordered = next.ordered;
        perm = next.perm;
        emptied = λ j h. elim (Bool-cases (j % s == 0)) [
          | inr e ↦ next.emptied j (λ z. ground (arith, z))
          | inl e ↦
              let (below, even) = odd_multiple j s hs (ground arith) h in
              let back : (j - s) + s ≡ j = omega arith in
              elim (dec_lt j n) [
                | yes inside ↦
                    ap (λ x. get_or (join_round combine order n s blocks) x []) (sym back)
                    ∙ join_round_empties law start order n s (j - s) blocks hs k
                        (all (j - s) (omega arith)) even (omega arith)
                | no outside ↦
                    get_or_outside (join_round combine order n s blocks) j
                      (omega (arith, next.size))
              ]
        ];
      }

  join_rounds-IsMergedSort :
      (fuel : ℕ) (start : List (List A)) (order : ℕ → List ℕ) (n s : ℕ) (blocks : List (List A))
      → n - s < fuel
      → 0 < s
      → ((step idx : ℕ) → idx < n → Contains idx (order step))
      → Kept law start n s blocks
      → Returns (IsMergedSort Ordered start) (join_rounds combine fuel order n s blocks)
  unfolding join_rounds
  join_rounds-IsMergedSort zero start order n s blocks hf hs all k = absurd (omega arith)
  join_rounds-IsMergedSort (suc fuel) start order n s blocks hf hs all k = elim (dec_lt s n) [
    | yes more ↦ rw (lt→ltb s n more) (
        join_rounds-IsMergedSort fuel start order n (2 * s)
          (join_round combine (order s) n s blocks) (omega arith) (omega arith) all
          (join_round_doubles start (order s) n s blocks hs (all s) k))
    | no last ↦
        let others : (j : ℕ) → get_or blocks (suc j) [] ≡ [] = λ j. elim (dec_lt (suc j) n) [
          | yes inside ↦
              let below : suc j < s = omega arith in
              let itself : suc j % s ≡ suc j = mod-eq_of_lt below in
              k.emptied (suc j) (λ z. absurd (omega arith))
          | no outside ↦ get_or_outside blocks (suc j) (omega (arith, k.size))
        ] in
        rw (le→ltb s n (omega arith)) (
          returns (record {
            ordered = get_or-All Ordered blocks 0 law.nil k.ordered;
            perm = rw (← all_in_first blocks others) k.perm;
            alone = all_in_first blocks others;
          }))
  ]

  one_divides : (k : ℕ) → k % 1 ≡ 0
  one_divides k = omega arith

  -- If each block is ordered, the rounds of merging end with all elements in order in the
  -- first block, for any number of threads: in each round the threads may take their turns in any
  -- order in which each of them occurs.
  pub join_rounds_lem :
      (order : ℕ → List ℕ) (blocks : List (List A))
      → ((step idx : ℕ) → idx < length blocks → Contains idx (order step))
      → All Ordered blocks
      → Returns
          (IsMergedSort Ordered blocks)
          (join_rounds combine (suc (length blocks)) order (length blocks) 1 blocks)
  join_rounds_lem order blocks all sorted =
      join_rounds-IsMergedSort (suc (length blocks)) blocks order (length blocks) 1 blocks
        (omega arith) (omega arith) all
        (record {
          size = refl;
          ordered = sorted;
          perm = Perm.rfl;
          emptied = λ k h. absurd (h (one_divides k));
        })
