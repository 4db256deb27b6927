-- ===== src/MergeTree/Laws.antt =====
-- The blocks in a round, whatever the order of the threads.
use mathlib.Core.List.Perm
use sysprogramming_examples.Prelude.{
  ℕ, ◌+◌, ◌*◌, ◌%◌, ◌<◌, ◌≡◌, ◌≢◌, inl, inr, sym, ap, ◌∙◌, true, ◌&&◌, List, [], ◌∷◌, Perm, arith,
  ◌==◌, ltb, Bool-cases,
}
use sysprogramming_examples.Memory.{length, get_or, set}
use sysprogramming_examples.Memory.Laws.{length-set}
use sysprogramming_examples.Memory.Index.{get_or-set}
use sysprogramming_examples.Order.{All}
use sysprogramming_examples.MergeTree.{Contains, IsCombine, join_thread, join_round}
use sysprogramming_examples.MergeTree.Contents.{
  concat, concat-merged, get_or-All, set-All, even_multiple, next_multiple,
}

module _ {ℓ κ} {A : Type ℓ} {Ordered : List A → Type κ} {combine : List A → List A → List A}
    (law : IsCombine Ordered combine) where
  -- What holds before, between and after the steps of the threads in the round of step `s`.
  pub record Kept (start : List (List A)) (n s : ℕ) (blocks : List (List A)) : Type (ℓ ⊔ κ) where
    pub size : length blocks ≡ n
    pub ordered : All Ordered blocks
    pub perm : Perm (concat blocks) (concat start)
    pub emptied : (k : ℕ) → k % s ≢ 0 → get_or blocks k [] ≡ []

  pub join_thread-Kept :
      (start : List (List A)) (n s idx : ℕ) (blocks : List (List A))
      → 0 < s
      → Kept start n s blocks
      → Kept start n s (join_thread combine n s idx blocks)
  unfolding join_thread
  join_thread-Kept start n s idx blocks hs k =
      elim (Bool-cases ((idx % (2 * s) == 0) && ltb (idx + s) n)) [
        | inr e ↦ rw e k
        | inl e ↦
            let l = get_or blocks idx [] in
            let r = get_or blocks (idx + s) [] in
            let v = combine l r in
            let first = set blocks idx v in
            let even : idx % (2 * s) ≡ 0 = ground arith in
            let inside : idx + s < length blocks = ground (arith, k.size) in
            let ordered : Ordered v =
              law.keeps l r (get_or-All Ordered blocks idx law.nil k.ordered)
                (get_or-All Ordered blocks (idx + s) law.nil k.ordered) in
            let perm = law.perm l r in
            rw e (record {
              size = length-set first (idx + s) [] ∙ length-set blocks idx v ∙ k.size;
              ordered =
                  set-All Ordered first (idx + s) [] law.nil
                    (set-All Ordered blocks idx v ordered k.ordered);
              perm =
                  Perm.trans (concat-merged v blocks idx (idx + s) (omega arith) inside perm)
                    k.perm;
              emptied = λ j h.
                  let own : idx ≢ j =
                    λ same. h (ap (λ x. x % s) (sym same) ∙ even_multiple idx s hs even) in
                  let outer =
                    get_or-set [] first (idx + s) j [] (omega (arith, length-set blocks idx v)) in
                  let inner = get_or-set [] blocks idx j v (omega arith) in
                  ground (arith, outer, inner, k.emptied j h, own);
            })
      ]

  -- A segment that is not the own one of a merging thread stays empty.
  join_thread-empty :
      (n s idx j : ℕ) (blocks : List (List A))
      → length blocks ≡ n
      → j % (2 * s) ≢ 0
      → get_or blocks j [] ≡ []
      → get_or (join_thread combine n s idx blocks) j [] ≡ []
  unfolding join_thread
  join_thread-empty n s idx j blocks size h e =
      elim (Bool-cases ((idx % (2 * s) == 0) && ltb (idx + s) n)) [
        | inr c ↦ rw c e
        | inl c ↦
            let v = combine (get_or blocks idx []) (get_or blocks (idx + s) []) in
            let even : idx % (2 * s) ≡ 0 = ground arith in
            let inside : idx + s < length blocks = ground (arith, size) in
            let own : idx ≢ j = λ same. h (ap (λ x. x % (2 * s)) (sym same) ∙ even) in
            let outer =
              get_or-set [] (set blocks idx v) (idx + s) j []
                (omega (arith, length-set blocks idx v)) in
            let inner = get_or-set [] blocks idx j v (omega arith) in
            rw c (ground (arith, outer, inner, e, own))
      ]

  -- A merging thread empties the other segment.
  join_thread_empties :
      (n s idx : ℕ) (blocks : List (List A))
      → length blocks ≡ n
      → idx % (2 * s) ≡ 0
      → idx + s < n
      → get_or (join_thread combine n s idx blocks) (idx + s) [] ≡ []
  unfolding join_thread
  join_thread_empties n s idx blocks size even h =
      let v = combine (get_or blocks idx []) (get_or blocks (idx + s) []) in
      let c : ((idx % (2 * s) == 0) && ltb (idx + s) n) ≡ true = ground arith in
      let outer =
        get_or-set [] (set blocks idx v) (idx + s) (idx + s) []
          (omega (arith, length-set blocks idx v)) in
      rw c (ground (arith, outer))

  pub join_round-Kept :
      (start : List (List A)) (order : List ℕ) (n s : ℕ) (blocks : List (List A))
      → 0 < s
      → Kept start n s blocks
      → Kept start n s (join_round combine order n s blocks)
  unfolding join_round
  join_round-Kept start [] n s blocks hs k = k
  join_round-Kept start (idx ∷ order) n s blocks hs k =
      join_round-Kept start order n s (join_thread combine n s idx blocks) hs
        (join_thread-Kept start n s idx blocks hs k)

  pub join_round-empty :
      (start : List (List A)) (order : List ℕ) (n s j : ℕ) (blocks : List (List A))
      → 0 < s
      → Kept start n s blocks
      → j % (2 * s) ≢ 0
      → get_or blocks j [] ≡ []
      → get_or (join_round combine order n s blocks) j [] ≡ []
  unfolding join_round
  join_round-empty start [] n s j blocks hs k h e = e
  join_round-empty start (idx ∷ order) n s j blocks hs k h e =
      join_round-empty start order n s j (join_thread combine n s idx blocks) hs
        (join_thread-Kept start n s idx blocks hs k) h
        (join_thread-empty n s idx j blocks k.size h e)

  pub join_round_empties :
      (start : List (List A)) (order : List ℕ) (n s idx : ℕ) (blocks : List (List A))
      → 0 < s
      → Kept start n s blocks
      → Contains idx order
      → idx % (2 * s) ≡ 0
      → idx + s < n
      → get_or (join_round combine order n s blocks) (idx + s) [] ≡ []
  unfolding join_round
  join_round_empties start [] n s idx blocks hs k c even h = absurd c
  join_round_empties start (i ∷ order) n s idx blocks hs k c even h =
      let next = join_thread-Kept start n s i blocks hs k in
      elim c [
        | inl same ↦
            let odd : (idx + s) % (2 * s) ≢ 0 =
              λ e. absurd (omega (arith, next_multiple idx s hs even)) in
            let mine : get_or (join_thread combine n s i blocks) (idx + s) [] ≡ [] =
              rw same (join_thread_empties n s idx blocks k.size even h) in
            join_round-empty start order n s (idx + s) (join_thread combine n s i blocks) hs next
              odd mine
        | inr later ↦
            join_round_empties start order n s idx (join_thread combine n s i blocks) hs next later
              even h
      ]
