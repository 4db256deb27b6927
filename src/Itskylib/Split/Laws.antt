-- ===== src/Itskylib/Split/Laws.antt =====
-- split_to_array stays inside its buffer and ends.
use sysprogramming_examples.Prelude.{
  ℕ, zero, suc, ◌+◌, ◌-◌, ◌^◌, refl, ◌≤◌, ◌<◌, ◌≡◌, ◌∙◌, List, [], ◌∷◌, ◌++◌, arith, leb, lt→ltb,
  le→leb, lt→leb, Bool-cases, inl, inr,
}
use sysprogramming_examples.Prelude.Run.{
  ok, Returns, returns, Returns-then, Returns-weaken, Returns-branch,
}
use sysprogramming_examples.Memory.{length, get_or, set, store}
use sysprogramming_examples.Memory.Laws.{length-append, length-set}
use sysprogramming_examples.Memory.Index.{load-get_or}
use sysprogramming_examples.Order.{All}
use sysprogramming_examples.Itskylib.Split.{
  is_string_char, Copied, copy_string, skip_separators, max_strings, StringArray, split_loop,
  split_to_array, result_of,
}
use sysprogramming_examples.Itskylib.Split.Collect.{collect_lem}

-- The buffer keeps its length and both pointers move on, the target not beyond the source.
record IsCopied (content : List ℕ) (source target end : ℕ) (c : Copied) : Type 0 where
  size : length c.content ≡ length content
  source_moves : source < c.source_pointer
  source_ends : c.source_pointer ≤ suc end
  target_moves : target < c.target_pointer
  behind : c.target_pointer ≤ c.source_pointer

store-inside : (a : List ℕ) (i v : ℕ) → i < length a → store a i v ≡ ok (set a i v)
unfolding store
store-inside a i v h = rw (lt→ltb i (length a) h)

-- The loop ends behind the end of the buffer.
copy_string_done :
    (fuel : ℕ) (content : List ℕ) (source target end : ℕ)
    → end < source
    → 0 < fuel
    → copy_string fuel content source target end
      ≡ ok (record { content = content; source_pointer = source; target_pointer = target })
unfolding copy_string
copy_string_done zero content source target end h k = absurd (omega arith)
copy_string_done (suc fuel) content source target end h k = rw (lt→leb source end h)

copy_string-IsCopied :
    (fuel : ℕ) (content : List ℕ) (source target end : ℕ)
    → length content ≡ suc end
    → source ≤ end
    → target ≤ source
    → suc end - source < fuel
    → Returns (IsCopied content source target end) (copy_string fuel content source target end)
unfolding copy_string
copy_string-IsCopied zero content source target end e hs ht hf = absurd (omega arith)
copy_string-IsCopied (suc fuel) content source target end e hs ht hf =
    let write = λ (v : ℕ). store-inside content target v (omega arith) in
    let kept = λ (v : ℕ). length-set content target v in
    let read = load-get_or 0 content source (omega arith) in
    let c = get_or content source 0 in
    rw (le→leb source end hs, read)
      (Returns-branch (is_string_char c)
        (λ char. rw (write c) (elim (Bool-cases (leb (source + 1) end)) [
          | inl more ↦
              Returns-weaken
                (λ r p. record {
                  size = p.size ∙ kept c;
                  source_moves = omega (arith, p.source_moves);
                  source_ends = p.source_ends;
                  target_moves = omega (arith, p.target_moves);
                  behind = p.behind;
                })
                (copy_string-IsCopied fuel (set content target c) (source + 1) (target + 1) end
                  (kept c ∙ e) (ground arith) (omega arith) (omega arith))
          | inr last ↦
              rw
                (copy_string_done fuel (set content target c) (source + 1) (target + 1) end
                  (ground arith) (omega arith))
                (returns (record {
                  size = kept c;
                  source_moves = omega arith;
                  source_ends = omega arith;
                  target_moves = omega arith;
                  behind = omega arith;
                }))
        ]))
        (λ separator. rw (write 0) (
          returns (record {
            size = kept 0;
            source_moves = omega arith;
            source_ends = omega arith;
            target_moves = omega arith;
            behind = omega arith;
          }))))

-- The next string begins not before `source`, and if there is none the pointer is behind the end.
skip_separators-ends :
    (fuel : ℕ) (content : List ℕ) (source end : ℕ)
    → length content ≡ suc end
    → source ≤ suc end
    → suc end - source < fuel
    → Returns (λ r. (source ≤ r) × (r ≤ suc end)) (skip_separators fuel content source end)
unfolding skip_separators
skip_separators-ends zero content source end e hs hf = absurd (omega arith)
skip_separators-ends (suc fuel) content source end e hs hf = elim (Bool-cases (leb source end)) [
  | inr last ↦ rw last (returns (omega arith, hs))
  | inl inside ↦
      let before_end : source ≤ end = ground arith in
      rw (inside, load-get_or 0 content source (omega arith))
        (Returns-branch (is_string_char (get_or content source 0))
          (λ char. returns (omega arith, hs))
          (λ separator.
            Returns-weaken (λ r p. (omega (arith, p.0), p.1))
              (skip_separators-ends fuel content (source + 1) end e (omega arith) (omega arith))))
]

-- The buffer has kept its length, there are not more strings than bytes, and they begin in it.
pub record IsSplit (size : ℕ) (r : StringArray) : Type 0 where
  pub length_kept : length r.content ≡ suc size
  pub count : length r.strings ≤ suc size
  pub inside : All (λ p. p ≤ size) r.strings

All-snoc :
    (size : ℕ) (strings : List ℕ) (p : ℕ)
    → All (λ q. q ≤ size) strings
    → p ≤ size
    → All (λ q. q ≤ size) (strings ++ p ∷ [])
All-snoc size [] p h k = (k, tt)
All-snoc size (q ∷ strings) p h k = (h.0, All-snoc size strings p h.1 k)

-- A string takes a byte at least, its end included, so that there are not more than `target`.
split_loop-IsSplit :
    (fuel : ℕ) (content : List ℕ) (source target end : ℕ) (strings : List ℕ)
    → length content ≡ suc end
    → suc end ≤ max_strings
    → source ≤ suc end
    → target ≤ source
    → length strings ≤ target
    → All (λ p. p ≤ end) strings
    → suc end - source < fuel
    → Returns (IsSplit end) (split_loop fuel content source target end strings)
unfolding split_loop
split_loop-IsSplit zero content source target end strings e hm hs ht hn hi hf = absurd (omega arith)
split_loop-IsSplit (suc fuel) content source target end strings e hm hs ht hn hi hf =
    elim (Bool-cases (leb source end)) [
      | inr last ↦ rw last (returns (record { length_kept = e; count = omega arith; inside = hi }))
      | inl more ↦
          let before_end : source ≤ end = ground arith in
          rw more (
            Returns-then
              (copy_string-IsCopied (end + 2) content source target end e before_end ht
                (omega arith))
              (λ c p.
                let room : length strings < max_strings = omega arith in
                rw
                  (
                    lt→ltb target c.target_pointer p.target_moves,
                    lt→ltb (length strings) max_strings room,
                  )
                  (Returns-then
                    (skip_separators-ends (end + 2) c.content c.source_pointer end (p.size ∙ e)
                      p.source_ends (omega arith))
                    (λ r q.
                      split_loop-IsSplit fuel c.content r c.target_pointer end
                        (strings ++ target ∷ []) (p.size ∙ e) hm q.1 (omega (arith, p.behind, q.0))
                        (omega (arith, length-append strings (target ∷ []), p.target_moves))
                        (All-snoc end strings target hi (omega arith))
                        (omega (arith, p.source_moves, q.0))))))
    ]

result_of-IsSplit :
    (malloc : ℕ → List ℕ) (size : ℕ) (split : StringArray)
    → ((n : ℕ) → length (malloc n) ≡ n)
    → suc size < 2 ^ 31
    → IsSplit size split
    → Returns (IsSplit size) (result_of malloc split)
unfolding result_of
result_of-IsSplit malloc size split hm b s =
    let n = length split.strings in
    rw
      (
        lt→ltb n 2147483648 (omega (arith, s.count)),
        collect_lem [] split.strings (malloc n) 0 0 0 refl refl (omega arith) (hm n),
      )
      (returns (record { length_kept = s.length_kept; count = s.count; inside = s.inside }))

-- For a buffer of `size` + 1 bytes, less than 2^31 of them, split_to_array returns: its loops end, no
-- access leaves the buffer, the structure for the pointers or the array of the result, and the result
-- has at most as many strings as the buffer has bytes, each of which begins in the buffer. `malloc`
-- gives memory of the size asked for.
pub split_to_array-IsSplit :
    (malloc : ℕ → List ℕ) (content : List ℕ) (size : ℕ)
    → ((n : ℕ) → length (malloc n) ≡ n)
    → length content ≡ suc size
    → suc size < 2 ^ 31
    → Returns (IsSplit size) (split_to_array malloc content size)
unfolding split_to_array
split_to_array-IsSplit malloc content size hm e b =
    Returns-then
      (split_loop-IsSplit (size + 2) content 0 0 size [] e (omega arith) (omega arith) (omega arith)
        (omega arith) tt (omega arith))
      (λ split s. result_of-IsSplit malloc size split hm b s)
