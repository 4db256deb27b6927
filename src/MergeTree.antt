-- ===== src/MergeTree.antt =====
-- Sorted blocks that are merged in pairs, in rounds: what psort.c and multithreaded-sort.c promise,
-- without saying where the blocks are kept. `combine` merges two blocks.
pub mod Contents
pub mod Laws
pub mod Rounds
pub mod Blocks
use sysprogramming_examples.Prelude.{
  ℕ, zero, suc, ◌+◌, ◌*◌, ◌%◌, ◌==◌, ◌&&◌, ◌≡◌, ◌⊎◌, List, [], ◌∷◌, ◌++◌, Perm, ltb, if◌then◌else◌,
}
use sysprogramming_examples.Prelude.Run.{Run, ok, no_fuel}
use sysprogramming_examples.Memory.{get_or, set}

-- Thread `k` is among those of a round.
abbrev pub Contains : (k : ℕ) → List ℕ → Type 0
Contains k [] = ⊥
Contains k (idx ∷ order) = (idx ≡ k) ⊎ Contains k order

module _ {ℓ κ} {A : Type ℓ} where
  -- `combine` keeps the elements and, of ordered blocks, makes an ordered one.
  pub record IsCombine (Ordered : List A → Type κ) (combine : List A → List A → List A)
      : Type (ℓ ⊔ κ) where
    pub nil : Ordered []
    pub keeps : (l r : List A) → Ordered l → Ordered r → Ordered (combine l r)
    pub perm : (l r : List A) → Perm (combine l r) (l ++ r)

module _ {ℓ} {A : Type ℓ} (combine : List A → List A → List A) where
  -- The turn of thread `idx`: its block and that of thread `idx` + `step` become one.
  unfoldable pub join_thread : (thread_count step idx : ℕ) → List (List A) → List (List A)
  join_thread thread_count step idx blocks =
      let other_idx = idx + step in
      let joined = combine (get_or blocks idx []) (get_or blocks other_idx []) in
      if (idx % (2 * step) == 0) && ltb other_idx thread_count
      then set (set blocks idx joined) other_idx []
      else blocks

  unfoldable pub join_round :
      (order : List ℕ) → (thread_count step : ℕ) → List (List A) → List (List A)
  join_round [] thread_count step blocks = blocks
  join_round (idx ∷ order) thread_count step blocks =
      join_round order thread_count step (join_thread thread_count step idx blocks)

  unfoldable pub join_rounds :
      (fuel : ℕ)
      → (order : ℕ → List ℕ) → (thread_count step : ℕ) → List (List A)
      → Run (List (List A))
  join_rounds zero order thread_count step blocks = no_fuel
  join_rounds (suc fuel) order thread_count step blocks =
      let more =
        join_rounds fuel order thread_count (2 * step)
          (join_round (order step) thread_count step blocks) in
      if ltb step thread_count then more else ok blocks
