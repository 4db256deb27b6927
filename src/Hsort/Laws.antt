-- ===== src/Hsort/Laws.antt =====
-- hsort.c sorts.
use sysprogramming_examples.Prelude.{
  ℕ, suc, ◌+◌, ◌-◌, ◌*◌, ◌/◌, ◌%◌, ◌^◌, ◌≤◌, ◌<◌, ◌≡◌, inl, refl, List, [], ◌∷◌, arith, leb, ltb,
  size_mod, lt→leb, ltb→le, ltb→lt,
}
use mathlib.Core.List.Perm
use sysprogramming_examples.Prelude.Run.{
  ◌>>=◌, Returns, returns, Returns-then, Returns-weaken, Returns-branch,
}
use sysprogramming_examples.Memory.{length, get_or}
use sysprogramming_examples.SortCommon.{CompareFun3}
use sysprogramming_examples.Order.{IsOrder, Sorts}
use sysprogramming_examples.Order.Laws.{Le_refl}
use sysprogramming_examples.Heap.{heapify_loop, sort_loop}
use sysprogramming_examples.Heap.Order.{IsGreatest}
use sysprogramming_examples.Heap.Pick.{greater-Picks, LeAt-trans}
use sysprogramming_examples.Heap.Sift.{sift_loop-Sifted}
use sysprogramming_examples.Heap.Sort.{IsSift, heap_sort-Sorts}
use sysprogramming_examples.Hsort.{parent, left, pick_child, sift_down, heapify, hsort_r}

parent_lem : (c : ℕ) → 0 < c → c < 2 ^ 64 → parent c ≡ (c - 1) / 2
unfolding parent
parent_lem c h k = omega arith

left_lem : (c : ℕ) → c < 2 ^ 62 → left c ≡ 2 * c + 1
unfolding left
left_lem c h = omega arith

module _ {ℓ κ} {A : Type ℓ} {M : Type κ} {compare : CompareFun3 A M} {arg : M} (d : A)
    (o : IsOrder compare arg) where
  -- A round of `sift_down` looks at the two children, if they exist, and at nothing else.
  pick_child-IsGreatest :
      (max : ℕ) (a : List A) (i : ℕ)
      → max < 2 ^ 62
      → max < length a
      → i ≤ max
      → Returns (IsGreatest compare arg d parent max a i) (pick_child max compare arg a i)
  unfolding pick_child
  pick_child-IsGreatest max a i hb hm hi =
      let l = left i in
      let r = (l + 1) % size_mod in
      let hl : l ≡ 2 * i + 1 = left_lem i (omega arith) in
      let hr : r ≡ 2 * i + 2 = omega arith in
      let child = λ (c : ℕ) (p : 0 < c) (q : c ≤ max). parent_lem c p (omega arith) in
      let parent_l = λ (p : l ≤ max). child l (omega arith) p in
      Returns-branch (ltb max l)
        (λ leaf. returns (record {
          inside = hi;
          place = inl refl;
          over_root = Le_refl o (get_or a i d);
          over_children = λ c p q e. absurd (omega (arith, child c p q, ltb→lt max l leaf));
        }))
        (λ inner.
          let hin : l ≤ max = ltb→le max l inner in
          Returns-then (greater-Picks d o a i l (omega arith) (omega arith)) λ s g.
            Returns-branch (leb r max)
              (λ two.
                Returns-weaken
                  (λ m h. record {
                    inside = ground (arith, h.one_of, g.one_of);
                    place = ground (arith, h.one_of, g.one_of, child m, parent_l hin);
                    over_root = LeAt-trans d o a i s m g.over_first h.over_first;
                    over_children = λ c p q e. ground (
                      arith,
                      child c p q,
                      h.over_second,
                      LeAt-trans d o a l s m g.over_second h.over_first,
                    );
                  })
                  (greater-Picks d o a s r (ground (arith, g.one_of)) (ground arith)))
              (λ one. returns (record {
                inside = ground (arith, g.one_of);
                place = ground (arith, g.one_of, parent_l hin);
                over_root = g.over_first;
                over_children = λ c p q e. ground (arith, child c p q, g.over_second);
              })))

  sift_down-IsSift : IsSift compare arg d parent (λ b start max. sift_down b start max compare arg)
  unfolding sift_down
  sift_down-IsSift = record {
    down = λ c p q. omega (arith, parent_lem c p q);
    restores = λ lo max a i hb hi hm v.
        sift_loop-Sifted compare arg d parent (λ c p q. omega (arith, parent_lem c p q)) max hb
          (pick_child max compare arg) (λ b j p q. pick_child-IsGreatest max b j hb p q) lo
          (suc max) a i (omega arith) hi hm v;
    mono = λ c e p q r.
        omega (arith, parent_lem c p (omega arith), parent_lem e (omega arith) (omega arith));
  }

module _ {ℓ κ} {A : Type ℓ} {M : Type κ} (compare : CompareFun3 A M) (arg : M) where
  -- The two loops, over indices that have not wrapped.
  hsort_r_loops :
      (a : List A) (n max : ℕ)
      → 1 < n
      → n ≡ suc max
      → n ≤ 2 ^ 62
      → hsort_r a n compare arg ≡ (
          heapify_loop (λ b start m. sift_down b start m compare arg) (suc (parent max)) a max
          >>= λ b. sort_loop (λ c start m. sift_down c start m compare arg) max b)
  unfolding hsort_r heapify
  hsort_r_loops a n max h e k =
      let last : (n + size_mod - 1) % size_mod ≡ max = omega arith in
      let last' : n - 1 ≡ max = omega arith in rw (lt→leb n 1 h, last, last')

module _ {ℓ κ} {A : Type ℓ} {M : Type κ} {compare : CompareFun3 A M} {arg : M}
    (o : IsOrder compare arg) where
  -- Heapsort of `nmemb` ≤ 2^62 elements, by a comparison that is a total preorder, returns: the loops
  -- end, no access leaves the array, and the
  -- elements are those of before in ascending order.
  pub hsort_r-Sorts :
      (a : List A)
      → length a ≤ 2 ^ 62
      → Returns (Sorts compare arg a) (hsort_r a (length a) compare arg)
  unfolding hsort_r
  hsort_r-Sorts [] h = returns (record { sorted = tt; perm = Perm.rfl })
  hsort_r-Sorts (x ∷ []) h = returns (record { sorted = (tt, tt); perm = Perm.rfl })
  hsort_r-Sorts (x ∷ y ∷ a) h =
      rw
        (hsort_r_loops compare arg (x ∷ y ∷ a) (length (x ∷ y ∷ a)) (suc (length a)) (omega arith)
          refl h)
        (heap_sort-Sorts x o (sift_down-IsSift x o) (suc (length a)) (x ∷ y ∷ a) (omega arith)
          (omega arith) refl)
