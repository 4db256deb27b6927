-- ===== src/SortedWords/Laws.antt =====
-- What a client gets of the words: all of them, in their order, in lines that fit.
use mathlib.Core.List.{append_assoc, append-nil}
use native.Mathlib.Decide.{dec_lt}
use sysprogramming_examples.Prelude.{
  ℕ, ◌+◌, ◌^◌, ◌≤◌, ◌<◌, ◌≡◌, ◌≢◌, ◌⊎◌, inl, inr, refl, ap, ◌∙◌, List, [], ◌∷◌, ◌++◌, arith, lt→ltb,
  le→ltb, le→leb, lt→leb,
}
use sysprogramming_examples.Prelude.Run.{ok, fault, ◌>>=◌, Returns, returns, Returns-then}
use sysprogramming_examples.Memory.{length}
use sysprogramming_examples.Memory.Laws.{length-append}
use sysprogramming_examples.Order.{All}
use sysprogramming_examples.MergeTree.Contents.{concat}
use sysprogramming_examples.SortedWords.{
  line_size, newline, space, finish_line, append_word, place_word, next_word, word_lines,
}
use sysprogramming_examples.SortedWords.Tokens.{
  words_of, IsWord, spaced, spaced_last, words_of_word, words_of_line,
}

pub finish_line_lem :
    (line : List ℕ) → length line ≤ line_size → finish_line line ≡ ok (line ++ newline ∷ [])
unfolding finish_line
finish_line_lem line h = rw (lt→ltb (length line) 201 (omega arith))

append_word_lem :
    (line string : List ℕ)
    → length line + (length string + 1) ≤ line_size
    → append_word line string ≡ ok (line ++ space ∷ string)
unfolding append_word
append_word_lem line string h = rw (le→leb (length line + (length string + 2)) 201 (omega arith))

place_short :
    (sent : List (List ℕ)) (line string : List ℕ)
    → length line + (length string + 1) ≤ line_size
    → place_word sent line string ≡ ok (sent, line ++ space ∷ string)
unfolding place_word
place_short sent line string h =
    rw (le→ltb 201 (length string + 1) (omega arith), append_word_lem line string h)

place_long :
    (sent : List (List ℕ)) (line string : List ℕ)
    → line_size < length string
    → place_word sent line string ≡ ok (sent ++ (string ∷ (newline ∷ []) ∷ []), line)
unfolding place_word
place_long sent line string h = rw (lt→ltb 201 (length string + 1) (omega arith))

-- A word that fits into the line.
pub next_fits :
    (line string : List ℕ)
    → length line + (length string + 1) ≤ line_size
    → next_word line string ≡ ok ([], line ++ space ∷ string)
unfolding next_word
next_fits line string h = rw (
  le→ltb 200 (length line + (length string + 1)) h,
  place_short [] line string h,
  lt→ltb (length line + (length string + 1)) 2147483648 (omega arith),
)

-- A word that begins a new line.
pub next_line :
    (line string : List ℕ)
    → length line ≤ line_size
    → line_size < length line + (length string + 1)
    → length string < line_size
    → next_word line string ≡ ok ((line ++ newline ∷ []) ∷ [], space ∷ string)
unfolding next_word
next_line line string hl h hs = rw (
  lt→ltb 200 (length line + (length string + 1)) h,
  finish_line_lem line hl,
  place_short ((line ++ newline ∷ []) ∷ []) [] string (omega arith),
  lt→ltb (length line + (length string + 1)) 2147483648 (omega arith),
)

-- A word that is longer than a line.
next_long :
    (line string : List ℕ)
    → length line ≤ line_size
    → line_size < length string
    → length string + 201 < 2 ^ 31
    → next_word line string ≡ ok ((line ++ newline ∷ []) ∷ string ∷ (newline ∷ []) ∷ [], [])
unfolding next_word
next_long line string hl h hb = rw (
  lt→ltb 200 (length line + (length string + 1)) (omega arith),
  finish_line_lem line hl,
  place_long ((line ++ newline ∷ []) ∷ []) [] string h,
  lt→ltb (length line + (length string + 1)) 2147483648 (omega arith),
)

pub more_words :
    (line string : List ℕ) (strings : List (List ℕ))
    → word_lines line (string ∷ strings)
      ≡ (next_word line string >>= λ r. word_lines (r.1) strings >>= λ more. ok (r.0 ++ more))
unfolding word_lines
more_words [] string strings = refl
more_words (c ∷ line) string strings = refl

-- A string is among others.
abbrev pub IsAmong : List ℕ → List (List ℕ) → Type 0
IsAmong string [] = ⊥
IsAmong string (s ∷ strings) = (string ≡ s) ⊎ IsAmong string strings

-- What is sent for `strings`, where the words `waiting` stand in the line already: it reads as those
-- words, and what is longer than a line with its end is one of the words by itself.
pub record IsRendered (waiting strings messages : List (List ℕ)) : Type 0 where
  pub content : words_of (concat messages) ≡ waiting ++ strings
  pub bounded : All (λ m. (length m ≤ line_size + 1) ⊎ IsAmong m strings) messages

IsAmong-more :
    (string : List ℕ) (strings messages : List (List ℕ))
    → All (λ m. (length m ≤ line_size + 1) ⊎ IsAmong m strings) messages
    → All (λ m. (length m ≤ line_size + 1) ⊎ IsAmong m (string ∷ strings)) messages
IsAmong-more string strings [] h = tt
IsAmong-more string strings (m ∷ messages) h = (
  elim (h.0) [ inl small ↦ inl small | inr a ↦ inr (inr a) ],
  IsAmong-more string strings messages h.1,
)

-- A line with its end is not too long.
line_bounded :
    (line : List ℕ) → length line ≤ line_size → length (line ++ newline ∷ []) ≤ line_size + 1
line_bounded line h = omega (arith, length-append line (newline ∷ []))

last_line :
    (waiting : List (List ℕ))
    → All IsWord waiting
    → length (spaced waiting) ≤ line_size
    → Returns (IsRendered waiting []) (word_lines (spaced waiting) [])
unfolding word_lines
last_line [] words h = returns (record { content = refl; bounded = tt })
last_line (w ∷ waiting) words h =
    let line = spaced (w ∷ waiting) in
    rw (finish_line_lem line h) (
      returns (record {
        content =
            ap words_of (append_assoc line (newline ∷ []) [])
            ∙ words_of_line (w ∷ waiting) [] words;
        bounded = (inl (line_bounded line h), tt);
      }))

All-last :
    (words : List (List ℕ)) (word : List ℕ)
    → All IsWord words
    → IsWord word
    → All IsWord (words ++ word ∷ [])
All-last [] word h k = (k, tt)
All-last (w ∷ words) word h k = (h.0, All-last words word h.1 k)

word_lines-IsRendered :
    (waiting strings : List (List ℕ))
    → All IsWord waiting
    → All IsWord strings
    → All (λ s. length s ≢ line_size) strings
    → All (λ s. length s + 201 < 2 ^ 31) strings
    → length (spaced waiting) ≤ line_size
    → Returns (IsRendered waiting strings) (word_lines (spaced waiting) strings)
word_lines-IsRendered waiting [] hw hs hl hb h = last_line waiting hw h
word_lines-IsRendered waiting (string ∷ strings) hw hs hl hb h =
    let line = spaced waiting in
    let rule = more_words line string strings in
    elim (dec_lt line_size (length line + (length string + 1))) [
      | no fits ↦
          let size : length (spaced (waiting ++ string ∷ [])) ≤ line_size =
            omega (
              arith,
              ap length (spaced_last waiting string),
              length-append line (space ∷ string),
            ) in
          rw (rule, next_fits line string (omega arith), ← spaced_last waiting string)
            (Returns-then
              (word_lines-IsRendered (waiting ++ string ∷ []) strings
                (All-last waiting string hw hs.0) hs.1 hl.1 hb.1 size)
              (λ more r. returns (record {
                content = r.content ∙ append_assoc waiting (string ∷ []) strings;
                bounded = IsAmong-more string strings more r.bounded;
              })))
      | yes full ↦ elim (dec_lt line_size (length string)) [
        | no short ↦
            let below : length string < line_size = omega (arith, hl.0) in
            let single : spaced (string ∷ []) ≡ space ∷ string =
              ap (λ l. space ∷ l) (append-nil string) in
            rw (rule, next_line line string h full below, ← single)
              (Returns-then
                (word_lines-IsRendered (string ∷ []) strings (hs.0, tt) hs.1 hl.1 hb.1
                  (omega (arith, ap length single)))
                (λ more r. returns (record {
                  content =
                      ap words_of (append_assoc line (newline ∷ []) (concat more))
                      ∙ words_of_line waiting (concat more) hw
                      ∙ ap (λ l. waiting ++ l) r.content;
                  bounded = (inl (line_bounded line h), IsAmong-more string strings more r.bounded);
                })))
        | yes long ↦
            rw (rule, next_long line string h long hb.0)
              (Returns-then (word_lines-IsRendered [] strings tt hs.1 hl.1 hb.1 (omega arith))
                (λ more r. returns (record {
                  content =
                      ap words_of
                        (append_assoc line (newline ∷ []) (string ++ newline ∷ concat more))
                      ∙ words_of_line waiting (string ++ newline ∷ concat more) hw
                      ∙ ap (λ l. waiting ++ l) (words_of_word string (concat more) hs.0)
                      ∙ ap (λ l. waiting ++ string ∷ l) r.content;
                  bounded = (
                    inl (line_bounded line h),
                    (
                      inr (inl refl),
                      (inl (omega arith), IsAmong-more string strings more r.bounded),
                    ),
                  );
                })))
      ]
    ]

-- The server sends the words of the file in lines: whoever splits what it sends for them at spaces and
-- ends of lines gets the words back, all of them and in their order, no write leaves the buffer for a
-- line, and no string that is sent is longer than a line of 200 bytes with its end, unless it is a
-- word. The words are not empty, have no space and no end of line, and none has exactly 200 bytes or
-- more than 2^31 - 202.
pub word_lines_lem :
    (strings : List (List ℕ))
    → All IsWord strings
    → All (λ s. length s ≢ line_size) strings
    → All (λ s. length s + 201 < 2 ^ 31) strings
    → Returns (IsRendered [] strings) (word_lines [] strings)
word_lines_lem strings hs hl hb = word_lines-IsRendered [] strings tt hs hl hb (omega arith)

overflowing_word :
    (sent : List (List ℕ)) (string : List ℕ)
    → length string ≡ line_size
    → place_word sent [] string ≡ fault
unfolding place_word append_word
overflowing_word sent string h = rw (
  le→ltb 201 (length string + 1) (omega arith),
  lt→leb (0 + (length string + 2)) 201 (omega arith),
)

-- A word of exactly 200 bytes is not taken for a long one, though with its space and the terminating 0
-- it needs 202 bytes: the server writes behind the end of its buffer of 201 bytes, whatever the line
-- has and whatever words follow.
pub word_lines_overflow :
    (line string : List ℕ) (strings : List (List ℕ))
    → length line ≤ line_size
    → length string ≡ line_size
    → word_lines line (string ∷ strings) ≡ fault
unfolding next_word
word_lines_overflow line string strings hl h = rw (
  more_words line string strings,
  lt→ltb 200 (length line + (length string + 1)) (omega arith),
  finish_line_lem line hl,
  overflowing_word ((line ++ newline ∷ []) ∷ []) string h,
  lt→ltb (length line + (length string + 1)) 2147483648 (omega arith),
)
