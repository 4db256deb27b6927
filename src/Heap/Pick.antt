-- ===== src/Heap/Pick.antt =====
-- The comparison of one child with the greatest element so far.
use sysprogramming_examples.Prelude.{ℕ, ◌<◌, ◌≡◌, ◌⊎◌, List, arith}
use sysprogramming_examples.Prelude.Run.{Returns, returns}
use sysprogramming_examples.Memory.{length, get_or}
use sysprogramming_examples.Memory.Index.{load-get_or}
use sysprogramming_examples.SortCommon.{CompareFun3}
use sysprogramming_examples.Order.{IsOrder}
use sysprogramming_examples.Order.Laws.{Le_refl}
use sysprogramming_examples.Heap.{greater}
use sysprogramming_examples.Heap.Order.{LeAt}

module _ {ℓ κ} {A : Type ℓ} {M : Type κ} (compare : CompareFun3 A M) (arg : M) (d : A) where
  -- `m` is one of the indices `s` and `c` whose element is not smaller than the other.
  pub record Picks (a : List A) (s c m : ℕ) : Type 0 where
    pub over_first : LeAt compare arg d a s m
    pub over_second : LeAt compare arg d a c m
    pub one_of : (m ≡ s) ⊎ (m ≡ c)

module _ {ℓ κ} {A : Type ℓ} {M : Type κ} {compare : CompareFun3 A M} {arg : M} (d : A)
    (o : IsOrder compare arg) where
  pub greater-Picks :
      (a : List A) (s c : ℕ)
      → s < length a
      → c < length a
      → Returns (Picks compare arg d a s c) (greater a s c compare arg)
  unfolding greater
  greater-Picks a s c hs hc =
      let x = get_or a s d in
      let y = get_or a c d in
      rw (load-get_or d a s hs, load-get_or d a c hc)
        (returns (record {
          over_first = ground (arith, o.flip x y, o.flip y x, Le_refl o x);
          over_second = ground (arith, o.flip x y, o.flip y x, Le_refl o y);
          one_of = ground arith;
        }))

  pub LeAt-trans :
      (a : List A) (i j k : ℕ)
      → LeAt compare arg d a i j
      → LeAt compare arg d a j k
      → LeAt compare arg d a i k
  LeAt-trans a i j k = o.trans (get_or a i d) (get_or a j d) (get_or a k d)
