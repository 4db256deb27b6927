-- ===== src/Heap/Sift.antt =====
-- `sift_down` restores the heap order, for any arity and any choice of the greatest element.
use mathlib.Core.List.Perm
use native.Mathlib.Decide.{ℕ_discrete}
use sysprogramming_examples.Prelude.{
  ℕ, zero, suc, ◌-◌, ◌^◌, ◌≤◌, ◌<◌, ◌≡◌, ◌≢◌, ◌⊎◌, refl, ◌∙◌, List, arith, ◌==◌, if◌then◌else◌,
  true, false, inl, inr,
}
use sysprogramming_examples.Prelude.Run.{Run, Returns, returns, Returns-then, Returns-weaken}
use sysprogramming_examples.Memory.{length}
use sysprogramming_examples.Memory.Index.{
  exchange, length-exchange, get_or-exchange, exchange-perm, swap_elements-exchange,
}
use sysprogramming_examples.SortCommon.{CompareFun3}
use sysprogramming_examples.Heap.{sift_loop}
use sysprogramming_examples.Heap.Order.{IsHeap, SiftInv, IsGreatest, Sifted}

same_index : (m i : ℕ) → m ≡ i → (m == i) ≡ true
same_index m i e = ground arith

other_index : (m i : ℕ) → m ≢ i → (m == i) ≡ false
other_index m i e = ground arith

moved : {P : Type 0} (m i : ℕ) → m ≢ i → (m ≡ i) ⊎ P → P
moved m i e (inl h) = absurd (e h)
moved m i e (inr p) = p

module _ {ℓ κ} {A : Type ℓ} {M : Type κ} (compare : CompareFun3 A M) (arg : M) (d : A)
    (parent : ℕ → ℕ) (down : (c : ℕ) → 0 < c → c < 2 ^ 64 → parent c < c) where
  module _ (lo max : ℕ) (hb : max < 2 ^ 62) (a : List A) (i m : ℕ) (hm : max < length a)
      (hi : i ≤ max) (v : SiftInv compare arg d parent lo max a i)
      (g : IsGreatest compare arg d parent max a i m) where
    -- After the exchange only the place that a[i] has come to may be out of order.
    exchange-SiftInv :
        (0 < m) → parent m ≡ i → SiftInv compare arg d parent lo max (exchange d a i m) m
    exchange-SiftInv pos pm =
        let at = get_or-exchange d a i m (omega arith) (omega (arith, g.inside)) in
        record {
          edges = λ c p q r t. ground (
            arith,
            at c,
            at (parent c),
            down c,
            down m,
            v.edges c,
            v.bridge m,
            g.over_root,
            g.over_children c,
            g.inside,
          );
          bridge = λ c p q r t u.
              ground (arith, at c, at (parent m), down c, down m, v.edges c, g.inside);
        }

    -- If a[i] is greatest itself, the heap is in order.
    settled : m ≡ i → IsHeap compare arg d parent lo max a
    settled e c p q r = ground (arith, v.edges c, g.over_children c)

    exchange-Sifted :
        (b : List A)
        → Sifted compare arg d parent lo max (exchange d a i m) b
        → Sifted compare arg d parent lo max a b
    exchange-Sifted b s =
        let at = get_or-exchange d a i m (omega arith) (omega (arith, g.inside)) in
        record {
          heap = s.heap;
          perm = Perm.trans s.perm (exchange-perm d a i m (omega arith) (omega (arith, g.inside)));
          origin = λ k h.
              let (j, hj, e) = s.origin k h in
              (
                if m == j then i else if i == j then m else j,
                ground (arith, g.inside),
                ground (arith, at j),
              );
          behind = λ k h. s.behind k h ∙ ground (arith, at k, g.inside);
        }

  module _ (max : ℕ) (hb : max < 2 ^ 62) (pick : List A → ℕ → Run ℕ)
      (greatest : (a : List A) (i : ℕ)
        → max < length a
        → i ≤ max
        → Returns (IsGreatest compare arg d parent max a i) (pick a i)) where
    -- The loop ends: the place that may be out of order moves away from the root.
    pub sift_loop-Sifted :
        (lo fuel : ℕ) (a : List A) (i : ℕ)
        → max - i < fuel
        → i ≤ max
        → max < length a
        → SiftInv compare arg d parent lo max a i
        → Returns (Sifted compare arg d parent lo max a) (sift_loop pick fuel a i)
    unfolding sift_loop
    sift_loop-Sifted lo zero a i hf hi hm v = absurd (omega arith)
    sift_loop-Sifted lo (suc fuel) a i hf hi hm v = Returns-then (greatest a i hm hi) λ m g.
        elim (ℕ_discrete m i) [
          | yes e ↦ rw (same_index m i e) (
              returns (record {
                heap = settled lo max hb a i m hm hi v g e;
                perm = Perm.rfl;
                origin = λ k h. (k, h, refl);
                behind = λ k h. refl;
              }))
          | no e ↦
              let place = moved m i e g.place in
              let hm' : m < length a = omega (arith, g.inside) in
              rw (other_index m i e, swap_elements-exchange d a i m (omega arith) hm')
                (Returns-weaken (exchange-Sifted lo max hb a i m hm hi v g) (
                  sift_loop-Sifted lo fuel (exchange d a i m) m
                    (omega (arith, down m place.0 (omega (arith, g.inside)), place.1, g.inside))
                    g.inside (omega (arith, length-exchange d a i m))
                    (exchange-SiftInv lo max hb a i m hm hi v g place.0 place.1)))
        ]
