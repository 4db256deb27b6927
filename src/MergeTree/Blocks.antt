-- ===== src/MergeTree/Blocks.antt =====
-- Where the blocks are if they stand one after another in an array.
use mathlib.Core.List.{append_assoc}
use native.Mathlib.Decide.{dec_lt}
use sysprogramming_examples.Prelude.{
  ℕ, zero, suc, ◌+◌, ◌≤◌, ◌<◌, ◌≡◌, refl, sym, ap, ◌∙◌, List, [], ◌∷◌, ◌++◌, arith, ◌==◌,
  Bool-cases, inl, inr,
}
use sysprogramming_examples.Memory.{length, take, drop, get_or, set}
use sysprogramming_examples.Memory.Laws.{length-append}
use sysprogramming_examples.Memory.Index.{get_or-set}
use sysprogramming_examples.MergeTree.Contents.{concat}

module _ {ℓ} {A : Type ℓ} where
  -- The index at which block `k` begins.
  abbrev pub offset : List (List A) → ℕ → ℕ
  offset [] k = 0
  offset (b ∷ blocks) zero = 0
  offset (b ∷ blocks) (suc k) = length b + offset blocks k

  pub length-concat-take :
      (blocks : List (List A)) (k : ℕ) → length (concat (take k blocks)) ≡ offset blocks k
  length-concat-take [] zero = refl
  length-concat-take [] (suc k) = refl
  length-concat-take (b ∷ blocks) zero = refl
  length-concat-take (b ∷ blocks) (suc k) =
      length-append b (concat (take k blocks))
      ∙ ap (λ n. length b + n) (length-concat-take blocks k)

  -- A block among the others, and another one in its place.
  pub concat_at :
      (blocks : List (List A)) (i : ℕ)
      → i < length blocks
      → concat blocks
        ≡ concat (take i blocks) ++ (get_or blocks i [] ++ concat (drop (suc i) blocks))
  concat_at [] i h = absurd (omega arith)
  concat_at (b ∷ blocks) zero h = refl
  concat_at (b ∷ blocks) (suc i) h =
      ap (λ l. b ++ l) (concat_at blocks i (omega arith))
      ∙ sym (
          append_assoc b (concat (take i blocks))
            (get_or blocks i [] ++ concat (drop (suc i) blocks)))

  pub concat-set_at :
      (blocks : List (List A)) (i : ℕ) (v : List A)
      → i < length blocks
      → concat (set blocks i v) ≡ concat (take i blocks) ++ (v ++ concat (drop (suc i) blocks))
  concat-set_at [] i v h = absurd (omega arith)
  concat-set_at (b ∷ blocks) zero v h = refl
  concat-set_at (b ∷ blocks) (suc i) v h =
      ap (λ l. b ++ l) (concat-set_at blocks i v (omega arith))
      ∙ sym (append_assoc b (concat (take i blocks)) (v ++ concat (drop (suc i) blocks)))

  -- Only the next block counts that is not empty.
  next_block :
      (blocks : List (List A)) (d : ℕ)
      → d < length blocks
      → ((k : ℕ) → k < d → get_or blocks k [] ≡ [])
      → concat blocks ≡ get_or blocks d [] ++ concat (drop (suc d) blocks)
  next_block [] d h e = absurd (omega arith)
  next_block (b ∷ blocks) zero h e = refl
  next_block (b ∷ blocks) (suc d) h e =
      ap (λ l. l ++ concat blocks) (e 0 (omega arith))
      ∙ next_block blocks d (omega arith) (λ k hk. e (suc k) (omega arith))

  next_block_emptied :
      (blocks : List (List A)) (d : ℕ)
      → d < length blocks
      → ((k : ℕ) → k < d → get_or blocks k [] ≡ [])
      → concat (set blocks d []) ≡ concat (drop (suc d) blocks)
  next_block_emptied [] d h e = absurd (omega arith)
  next_block_emptied (b ∷ blocks) zero h e = refl
  next_block_emptied (b ∷ blocks) (suc d) h e =
      ap (λ l. l ++ concat (set blocks d [])) (e 0 (omega arith))
      ∙ next_block_emptied blocks d (omega arith) (λ k hk. e (suc k) (omega arith))

  offset_empty :
      (blocks : List (List A)) (d : ℕ)
      → ((k : ℕ) → k < d → get_or blocks k [] ≡ [])
      → offset blocks d ≡ 0
  offset_empty [] d e = refl
  offset_empty (b ∷ blocks) zero e = refl
  offset_empty (b ∷ blocks) (suc d) e = omega (
    arith,
    ap length (e 0 (omega arith)),
    offset_empty blocks d (λ k hk. e (suc k) (omega arith)),
  )

  -- Two blocks with nothing between them stand side by side.
  pub two_blocks :
      (blocks : List (List A)) (i j : ℕ)
      → i < j
      → j < length blocks
      → ((k : ℕ) → i < k → k < j → get_or blocks k [] ≡ [])
      → concat blocks
        ≡ concat (take i blocks)
          ++ (get_or blocks i [] ++ (get_or blocks j [] ++ concat (drop (suc j) blocks)))
  two_blocks [] i j hi h e = absurd (omega arith)
  two_blocks (b ∷ blocks) i zero hi h e = absurd (omega arith)
  two_blocks (b ∷ blocks) zero (suc j) hi h e =
      ap (λ l. b ++ l)
        (next_block blocks j (omega arith) (λ k hk. e (suc k) (omega arith) (omega arith)))
  two_blocks (b ∷ blocks) (suc i) (suc j) hi h e =
      let between = λ (k : ℕ) (low : i < k) (high : k < j). e (suc k) (omega arith) (omega arith) in
      ap (λ l. b ++ l) (two_blocks blocks i j (omega arith) (omega arith) between)
      ∙ sym (
          append_assoc b (concat (take i blocks))
            (get_or blocks i [] ++ (get_or blocks j [] ++ concat (drop (suc j) blocks))))

  -- One block in the place of the two.
  pub two_blocks_joined :
      (blocks : List (List A)) (i j : ℕ) (v : List A)
      → i < j
      → j < length blocks
      → ((k : ℕ) → i < k → k < j → get_or blocks k [] ≡ [])
      → concat (set (set blocks i v) j [])
        ≡ (concat (take i blocks) ++ v) ++ concat (drop (suc j) blocks)
  two_blocks_joined [] i j v hi h e = absurd (omega arith)
  two_blocks_joined (b ∷ blocks) i zero v hi h e = absurd (omega arith)
  two_blocks_joined (b ∷ blocks) zero (suc j) v hi h e =
      ap (λ l. v ++ l)
        (next_block_emptied blocks j (omega arith) (λ k hk. e (suc k) (omega arith) (omega arith)))
  two_blocks_joined (b ∷ blocks) (suc i) (suc j) v hi h e =
      let before = concat (take i blocks) in
      let after = concat (drop (suc j) blocks) in
      let between = λ (k : ℕ) (low : i < k) (high : k < j). e (suc k) (omega arith) (omega arith) in
      ap (λ l. b ++ l) (two_blocks_joined blocks i j v (omega arith) (omega arith) between)
      ∙ sym (append_assoc b (before ++ v) after)
      ∙ ap (λ l. l ++ after) (sym (append_assoc b before v))

  -- What comes after the end of a block.
  pub offset_next :
      (blocks : List (List A)) (i j : ℕ)
      → i < j
      → j < length blocks
      → ((k : ℕ) → i < k → k < j → get_or blocks k [] ≡ [])
      → offset blocks j ≡ offset blocks i + length (get_or blocks i [])
  offset_next [] i j hi h e = absurd (omega arith)
  offset_next (b ∷ blocks) i zero hi h e = absurd (omega arith)
  offset_next (b ∷ blocks) zero (suc j) hi h e =
      omega (arith, offset_empty blocks j (λ k hk. e (suc k) (omega arith) (omega arith)))
  offset_next (b ∷ blocks) (suc i) (suc j) hi h e =
      let between = λ (k : ℕ) (low : i < k) (high : k < j). e (suc k) (omega arith) (omega arith) in
      omega (arith, offset_next blocks i j (omega arith) (omega arith) between)

  pub offset-set_before :
      (blocks : List (List A)) (i k : ℕ) (v : List A)
      → k ≤ i
      → offset (set blocks i v) k ≡ offset blocks k
  offset-set_before [] i k v h = refl
  offset-set_before (b ∷ blocks) zero zero v h = refl
  offset-set_before (b ∷ blocks) zero (suc k) v h = absurd (omega arith)
  offset-set_before (b ∷ blocks) (suc i) zero v h = refl
  offset-set_before (b ∷ blocks) (suc i) (suc k) v h =
      ap (λ n. length b + n) (offset-set_before blocks i k v (omega arith))

  pub offset-set_after :
      (blocks : List (List A)) (i k : ℕ) (v : List A)
      → i < k
      → i < length blocks
      → offset (set blocks i v) k + length (get_or blocks i []) ≡ offset blocks k + length v
  offset-set_after [] i k v h hi = absurd (omega arith)
  offset-set_after (b ∷ blocks) i zero v h hi = absurd (omega arith)
  offset-set_after (b ∷ blocks) zero (suc k) v h hi = omega arith
  offset-set_after (b ∷ blocks) (suc i) (suc k) v h hi =
      omega (arith, offset-set_after blocks i k v (omega arith) (omega arith))

  -- A block of the same length changes no place and no length.
  pub offset-set_same :
      (blocks : List (List A)) (i k : ℕ) (v : List A)
      → i < length blocks
      → length v ≡ length (get_or blocks i [])
      → offset (set blocks i v) k ≡ offset blocks k
  offset-set_same blocks i k v hi h = elim (dec_lt i k) [
    | yes behind ↦ omega (arith, offset-set_after blocks i k v behind hi)
    | no before ↦ offset-set_before blocks i k v (omega arith)
  ]

  pub length-set_same :
      (blocks : List (List A)) (i k : ℕ) (v : List A)
      → i < length blocks
      → length v ≡ length (get_or blocks i [])
      → length (get_or (set blocks i v) k []) ≡ length (get_or blocks k [])
  length-set_same blocks i k v hi h = elim (Bool-cases (i == k)) [
    | inl e ↦
        let same : i ≡ k = ground arith in
        let here : get_or (set blocks i v) i [] ≡ v =
          ground (arith, get_or-set [] blocks i i v hi) in
        ap (λ x. length (get_or (set blocks i v) x [])) (sym same)
        ∙ ap length here
        ∙ h
        ∙ ap (λ x. length (get_or blocks x [])) same
    | inr e ↦
        let there : get_or (set blocks i v) k [] ≡ get_or blocks k [] =
          ground (arith, get_or-set [] blocks i k v hi) in
        ap length there
  ]
