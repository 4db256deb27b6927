-- ===== src/Heap/Sort.antt =====
-- `heapify` and the loop of `hsort_r`, for any arity.
use mathlib.Core.List.Perm
use sysprogramming_examples.Prelude.{
  ℕ, zero, suc, ◌^◌, ◌≤◌, ◌<◌, ◌≡◌, ◌∙◌, List, [], ◌∷◌, Perm, arith,
}
use sysprogramming_examples.Prelude.Run.{Run, ◌>>=◌, Returns, returns, Returns-then, Returns-weaken}
use sysprogramming_examples.Memory.{length, get_or}
use sysprogramming_examples.Memory.Laws.{Perm-length}
use sysprogramming_examples.Memory.Index.{
  exchange, length-exchange, get_or-exchange, exchange-perm, swap_elements-exchange,
}
use sysprogramming_examples.SortCommon.{CompareFun3}
use sysprogramming_examples.Order.{All, IsSorted, Le, IsOrder, Sorts}
use sysprogramming_examples.Heap.{heapify_loop, sort_loop}
use sysprogramming_examples.Heap.Order.{LeAt, IsHeap, SiftInv, Sifted, root_greatest}

-- A sift function, and what the two loops rely on.
pub record IsSift {ℓ κ} {A : Type ℓ} {M : Type κ} (compare : CompareFun3 A M) (arg : M) (d : A)
    (parent : ℕ → ℕ) (sift_down : List A → ℕ → ℕ → Run (List A)) : Type ℓ where
  pub down : (c : ℕ) → 0 < c → c < 2 ^ 64 → parent c < c
  pub restores :
      (lo max : ℕ) (a : List A) (i : ℕ)
      → max < 2 ^ 62
      → i ≤ max
      → max < length a
      → SiftInv compare arg d parent lo max a i
      → Returns (Sifted compare arg d parent lo max a) (sift_down a i max)
  pub mono : (c e : ℕ) → 0 < c → c ≤ e → e < 2 ^ 62 → parent c ≤ parent e

module _ {ℓ} {A : Type ℓ} (d : A) where
  All-index : (P : A → Type 0) (a : List A) → ((j : ℕ) → j < length a → P (get_or a j d)) → All P a
  All-index P [] h = tt
  All-index P (x ∷ a) h = (h 0 (omega arith), All-index P a (λ j p. h (suc j) (omega arith)))

  -- A list is sorted if its elements are related by their indices.
  IsSorted-index :
      (R : A → A → Type 0) (a : List A)
      → ((i j : ℕ) → i < j → j < length a → R (get_or a i d) (get_or a j d))
      → IsSorted R a
  IsSorted-index R [] h = tt
  IsSorted-index R (x ∷ a) h = (
    All-index (R x) a (λ j p. h 0 (suc j) (omega arith) (omega arith)),
    IsSorted-index R a (λ i j p q. h (suc i) (suc j) (omega arith) (omega arith)),
  )

module _ {ℓ κ} {A : Type ℓ} {M : Type κ} {compare : CompareFun3 A M} {arg : M} (d : A)
    (o : IsOrder compare arg) {parent : ℕ → ℕ} {sift_down : List A → ℕ → ℕ → Run (List A)}
    (sift : IsSift compare arg d parent sift_down) where
  -- Each round of `heapify` extends the ordered part of the tree by one parent.
  pub heapify_loop-IsHeap :
      (rounds max : ℕ) (a : List A)
      → max < 2 ^ 62
      → rounds ≤ suc max
      → max < length a
      → IsHeap compare arg d parent rounds max a
      → Returns
          (λ b. IsHeap compare arg d parent 0 max b × Perm b a)
          (heapify_loop sift_down rounds a max)
  unfolding heapify_loop
  heapify_loop-IsHeap zero max a hb hr hm h = returns (h, Perm.rfl)
  heapify_loop-IsHeap (suc i) max a hb hr hm h =
      let v : SiftInv compare arg d parent i max a i = record {
        edges = λ c p q r t. h c p q (omega arith);
        bridge = λ c p q r t u. absurd (omega (arith, sift.down i t (omega arith)));
      } in
      Returns-then (sift.restores i max a i hb (omega arith) hm v) λ b s.
        Returns-weaken (λ c t. (t.0, Perm.trans t.1 s.perm))
          (heapify_loop-IsHeap i max b hb (omega arith) (omega (arith, Perm-length s.perm)) s.heap)

  -- The elements behind `end` are in their final order, and none up to `end` is greater.
  record SortInv (end : ℕ) (a : List A) : Type 0 where
    pub heap : IsHeap compare arg d parent 0 end a
    pub tail : (i j : ℕ) → end < i → i < j → j < length a → LeAt compare arg d a i j
    pub split : (i j : ℕ) → i ≤ end → end < j → j < length a → LeAt compare arg d a i j

  -- A round: the root, a greatest element, goes to `end`, and the rest is sifted.
  round-SortInv :
      (end : ℕ) (a b : List A)
      → suc end < 2 ^ 62
      → suc end < length a
      → SortInv (suc end) a
      → Sifted compare arg d parent 0 end (exchange d a 0 (suc end)) b
      → SortInv end b
  round-SortInv end a b hb he v s =
      let at = get_or-exchange d a 0 (suc end) (omega arith) he in
      let size : length b ≡ length a = Perm-length s.perm ∙ length-exchange d a 0 (suc end) in
      let root = λ (i : ℕ) (h : i ≤ suc end).
        root_greatest compare arg d parent o sift.down (suc end) a i v.heap h (omega arith) in
      record {
        heap = s.heap;
        tail = λ i j p q r.
            ground (arith, at i, at j, s.behind i, s.behind j, v.split 0 j, v.tail i j, size);
        split = λ i j p q r.
            let (k, hk, e) = s.origin i p in
            ground (
              arith,
              e,
              hk,
              at k,
              at j,
              s.behind j,
              v.split k j,
              v.split (suc end) j,
              root k (omega arith),
              root (suc end) (omega arith),
              size,
            );
      }

  top_SiftInv :
      (end : ℕ) (a : List A)
      → suc end < 2 ^ 62
      → suc end < length a
      → SortInv (suc end) a
      → SiftInv compare arg d parent 0 end (exchange d a 0 (suc end)) 0
  top_SiftInv end a hb he v =
      let at = get_or-exchange d a 0 (suc end) (omega arith) he in
      record {
        edges = λ c p q r t. ground (arith, at c, at (parent c), sift.down c, v.heap c);
        bridge = λ c p q r t u. absurd (omega arith);
      }

  sort_loop-SortInv :
      (end : ℕ) (a : List A)
      → end < 2 ^ 62
      → end < length a
      → SortInv end a
      → Returns (λ b. SortInv 0 b × Perm b a) (sort_loop sift_down end a)
  unfolding sort_loop
  sort_loop-SortInv zero a hb he v = returns (v, Perm.rfl)
  sort_loop-SortInv (suc end) a hb he v =
      let e = exchange d a 0 (suc end) in
      let first : 0 < length a = omega arith in
      rw (swap_elements-exchange d a 0 (suc end) first he) (
        Returns-then
          (sift.restores 0 end e 0 (omega arith) (omega arith)
            (omega (arith, length-exchange d a 0 (suc end))) (top_SiftInv end a hb he v))
          λ b s.
            let items = Perm.trans s.perm (exchange-perm d a 0 (suc end) first he) in
            Returns-weaken (λ c t. (t.0, Perm.trans t.1 items))
              (sort_loop-SortInv end b (omega arith) (omega (arith, Perm-length items))
                (round-SortInv end a b hb he v s)))

  -- The two loops of `hsort_r` one after the other.
  pub heap_sort-Sorts :
      (max : ℕ) (a : List A)
      → 0 < max
      → max < 2 ^ 62
      → length a ≡ suc max
      → Returns
          (Sorts compare arg a)
          (heapify_loop sift_down (suc (parent max)) a max >>= λ b. sort_loop sift_down max b)
  heap_sort-Sorts max a h0 hb hn =
      let leaves : IsHeap compare arg d parent (suc (parent max)) max a =
        λ c p q r. absurd (omega (arith, sift.mono c max p q hb)) in
      Returns-then
        (heapify_loop-IsHeap (suc (parent max)) max a hb
          (omega (arith, sift.down max h0 (omega arith))) (omega arith) leaves)
        λ b s.
          let start : SortInv max b = record {
            heap = s.0;
            tail = λ i j p q r. absurd (omega (arith, Perm-length s.1));
            split = λ i j p q r. absurd (omega (arith, Perm-length s.1));
          } in
          Returns-weaken
            (λ c t. record {
              sorted = IsSorted-index d (Le compare arg) c λ i j p q. in_order c i j t.0 p q;
              perm = Perm.trans t.1 s.1;
            })
            (sort_loop-SortInv max b hb (omega (arith, Perm-length s.1)) start)
    where
      in_order :
          (c : List A) (i j : ℕ) → SortInv 0 c → i < j → j < length c → LeAt compare arg d c i j
      in_order c zero j v p q = v.split 0 j (omega arith) p q
      in_order c (suc i) j v p q = v.tail (suc i) j (omega arith) p q
