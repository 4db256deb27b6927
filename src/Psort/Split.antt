-- ===== src/Psort/Split.antt =====
-- The blocks that the division of psort.c makes of an array.
use sysprogramming_examples.Prelude.{
  ℕ, zero, suc, ◌+◌, ◌≤◌, ◌<◌, ◌≡◌, refl, sym, ap, ◌∙◌, List, [], ◌∷◌, ◌++◌, some, arith,
}
use sysprogramming_examples.Memory.{length, take, drop, get_or}
use sysprogramming_examples.Memory.Laws.{take-append-drop, length-drop, length-take}
use sysprogramming_examples.Order.{All}
use sysprogramming_examples.MergeTree.Contents.{concat}
use sysprogramming_examples.MergeTree.Blocks.{offset}
use sysprogramming_examples.Psort.{SortableData}
use sysprogramming_examples.Psort.Partition.{Covers}
use sysprogramming_examples.Psort.Round.{segment, no_segment}
use sysprogramming_examples.Psort.Layout.{IsLaid}

Covers-upwards : (from to : ℕ) (segments : List SortableData) → Covers from to segments → from ≤ to
Covers-upwards from to [] h = omega arith
Covers-upwards from to (s ∷ segments) h =
    omega (arith, Covers-upwards (from + s.nmemb) to segments h.1)

module _ {ℓ} {A : Type ℓ} where
  -- The elements of each segment.
  abbrev pub contents : List SortableData → List A → List (List A)
  contents [] a = []
  contents (s ∷ segments) a = take s.nmemb a ∷ contents segments (drop s.nmemb a)

  pub length-contents :
      (segments : List SortableData) (a : List A) → length (contents segments a) ≡ length segments
  length-contents [] a = refl
  length-contents (s ∷ segments) a = ap suc (length-contents segments (drop s.nmemb a))

  empty_list : (a : List A) → length a ≡ 0 → a ≡ []
  empty_list [] h = refl
  empty_list (x ∷ a) h = absurd (omega arith)

  concat-contents :
      (segments : List SortableData) (a : List A) (from to : ℕ)
      → Covers from to segments
      → from + length a ≡ to
      → concat (contents segments a) ≡ a
  concat-contents [] a from to h e = sym (empty_list a (omega arith))
  concat-contents (s ∷ segments) a from to h e =
      let upwards = Covers-upwards (from + s.nmemb) to segments h.1 in
      ap (λ l. take s.nmemb a ++ l)
        (concat-contents segments (drop s.nmemb a) (from + s.nmemb) to h.1
          (omega (arith, length-drop s.nmemb a)))
      ∙ take-append-drop s.nmemb a

  pointer-contents :
      (segments : List SortableData) (a : List A) (from to k : ℕ)
      → Covers from to segments
      → from + length a ≡ to
      → k < length (contents segments a)
      → get_or segments k no_segment
        ≡ segment
            (from + offset (contents segments a) k)
            (length (get_or (contents segments a) k []))
  pointer-contents [] a from to k h e hk = absurd (omega arith)
  pointer-contents (s ∷ segments) a from to zero h e hk =
      let upwards = Covers-upwards (from + s.nmemb) to segments h.1 in
      let size : s.nmemb ≡ length (take s.nmemb a) = omega (arith, length-take s.nmemb a) in
      let start : some from ≡ some (from + 0) = ap some (omega arith) in
      ap (λ b. record { base = b; nmemb = s.nmemb }) (h.0 ∙ start) ∙ ap (segment (from + 0)) size
  pointer-contents (s ∷ segments) a from to (suc k) h e hk =
      let upwards = Covers-upwards (from + s.nmemb) to segments h.1 in
      let rest = drop s.nmemb a in
      let size : s.nmemb ≡ length (take s.nmemb a) = omega (arith, length-take s.nmemb a) in
      let start : (from + s.nmemb) + offset (contents segments rest) k
          ≡ from + (length (take s.nmemb a) + offset (contents segments rest) k) =
        omega arith in
      pointer-contents segments rest (from + s.nmemb) to k h.1
        (omega (arith, length-drop s.nmemb a)) (omega arith)
      ∙ ap (λ m. segment m (length (get_or (contents segments rest) k []))) start

  -- The division of an array stands for the blocks it makes.
  pub contents-IsLaid :
      (segments : List SortableData) (a : List A)
      → Covers 0 (length a) segments
      → IsLaid (λ k. Unit) a segments (contents segments a)
  contents-IsLaid segments a h = record {
    place = sym (concat-contents segments a 0 (length a) h (omega arith));
    size = sym (length-contents segments a);
    pointers = λ k t hk.
        let start : 0 + offset (contents segments a) k ≡ offset (contents segments a) k =
          omega arith in
        pointer-contents segments a 0 (length a) k h (omega arith) hk
        ∙ ap (λ m. segment m (length (get_or (contents segments a) k []))) start;
  }

  pub All-get_or {κ} :
      (P : List A → Type κ) (blocks : List (List A))
      → ((k : ℕ) → k < length blocks → P (get_or blocks k []))
      → All P blocks
  All-get_or P [] h = tt
  All-get_or P (b ∷ blocks) h =
      (h 0 (omega arith), All-get_or P blocks (λ k hk. h (suc k) (omega arith)))
