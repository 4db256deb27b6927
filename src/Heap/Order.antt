-- ===== src/Heap/Order.antt =====
-- The heap order, for any arity: `parent` is all that is said about the shape of the tree.
use sysprogramming_examples.Prelude.{ℕ, zero, suc, ◌≤◌, ◌<◌, ◌≡◌, ◌≢◌, ◌⊎◌, List, Perm, arith, ◌^◌}
use sysprogramming_examples.Memory.{get_or}
use sysprogramming_examples.SortCommon.{CompareFun3}
use sysprogramming_examples.Order.{Le, IsOrder}
use sysprogramming_examples.Order.Laws.{Le_refl}

module _ {ℓ κ} {A : Type ℓ} {M : Type κ} (compare : CompareFun3 A M) (arg : M) (d : A) where
  -- a[i] is not greater than a[j].
  abbrev pub LeAt : List A → ℕ → ℕ → Type 0
  LeAt a i j = Le compare arg (get_or a i d) (get_or a j d)

  module _ (parent : ℕ → ℕ) where
    -- No element up to index `max` is greater than its parent, for the parents from `lo` on.
    abbrev pub IsHeap : (lo max : ℕ) → List A → Type 0
    IsHeap lo max a = (c : ℕ) → 0 < c → c ≤ max → lo ≤ parent c → LeAt a c (parent c)

    -- Only a[i] may be smaller than its children; these are not greater than the parent of i.
    pub record SiftInv (lo max : ℕ) (a : List A) (i : ℕ) : Type 0 where
      pub edges : (c : ℕ) → 0 < c → c ≤ max → lo ≤ parent c → parent c ≢ i → LeAt a c (parent c)
      pub bridge :
          (c : ℕ) → 0 < c → c ≤ max → parent c ≡ i → 0 < i → lo ≤ parent i → LeAt a c (parent i)

    -- `m` is the index of a greatest element among i and its children.
    pub record IsGreatest (max : ℕ) (a : List A) (i m : ℕ) : Type 0 where
      pub inside : m ≤ max
      pub place : (m ≡ i) ⊎ ((0 < m) × (parent m ≡ i))
      pub over_root : LeAt a i m
      pub over_children : (c : ℕ) → 0 < c → c ≤ max → parent c ≡ i → LeAt a c m

    -- The result `b` of sifting in `a`: a heap from `lo` on of the same elements, those up to
    -- index `max` come from there, and those behind have not moved.
    pub record Sifted (lo max : ℕ) (a b : List A) : Type ℓ where
      pub heap : IsHeap lo max b
      pub perm : Perm b a
      pub origin : (i : ℕ) → i ≤ max → (j : ℕ) × (j ≤ max) × (get_or b i d ≡ get_or a j d)
      pub behind : (i : ℕ) → max < i → get_or b i d ≡ get_or a i d

    root_below :
        IsOrder compare arg
        → ((c : ℕ) → 0 < c → c < 2 ^ 64 → parent c < c)
        → (k max : ℕ) (a : List A) (i : ℕ) → IsHeap 0 max a
        → i < k
        → i ≤ max
        → max < 2 ^ 64
        → LeAt a i 0
    root_below o down zero max a i h hk hi hm = absurd (omega arith)
    root_below o down (suc k) max a zero h hk hi hm = Le_refl o (get_or a 0 d)
    root_below o down (suc k) max a (suc i) h hk hi hm =
        let p = down (suc i) (omega arith) (omega arith) in
        o.trans (get_or a (suc i) d) (get_or a (parent (suc i)) d) (get_or a 0 d)
          (h (suc i) (omega arith) hi (omega arith))
          (root_below o down k max a (parent (suc i)) h (omega arith) (omega arith) hm)

    -- The root of a heap is a greatest element.
    pub root_greatest :
        IsOrder compare arg
        → ((c : ℕ) → 0 < c → c < 2 ^ 64 → parent c < c)
        → (max : ℕ) (a : List A) (i : ℕ) → IsHeap 0 max a
        → i ≤ max
        → max < 2 ^ 64
        → LeAt a i 0
    root_greatest o down max a i h hi hm = root_below o down (suc i) max a i h (omega arith) hi hm
