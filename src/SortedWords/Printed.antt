-- ===== src/SortedWords/Printed.antt =====
-- posix/threads/thread-sort-once.c: the same words in lines on the standard output. `line` has what
-- `sprintf` has left there, up to its terminating 0, and none before the first `sprintf`; to print it
-- then is a fault, and so are a write behind its end and a length that does not fit into an `int`. The calls for threads succeed.
use native.Mathlib.Decide.{dec_lt}
use sysprogramming_examples.Prelude.{
  ℕ, ◌+◌, ◌^◌, ◌≤◌, ◌<◌, ◌≡◌, refl, ap, ◌∙◌, List, [], ◌∷◌, ◌++◌, Option, none, some, arith, ltb,
  leb, if◌then◌else◌, lt→ltb, le→ltb, le→leb,
}
use sysprogramming_examples.Prelude.Run.{Run, ok, fault, no_fuel, ◌>>=◌}
use sysprogramming_examples.Memory.{length, take}
use sysprogramming_examples.Memory.Laws.{length-append, take_all}
use sysprogramming_examples.Order.{All}
use sysprogramming_examples.SortedWords.{line_size, newline, space, word_lines}
use sysprogramming_examples.SortedWords.Laws.{next_fits, next_line, more_words, finish_line_lem}

abbrev Line : Type 0
Line = Option (List ℕ)

-- `printf("%s\n", line)`
unfoldable pub print_line : Line → Run (List ℕ)
print_line none = fault
print_line (some text) = ok (text ++ newline ∷ [])

-- The bytes of `line` before `pos`.
unfoldable pub before_pos : Line → (used_len : ℕ) → List ℕ
before_pos none used_len = []
before_pos (some text) used_len = take used_len text

-- `sprintf(pos, " %s", string)`
unfoldable pub print_word : Line → (used_len : ℕ) → (string : List ℕ) → Run Line
print_word line used_len string =
    if leb (used_len + (length string + 2)) (line_size + 1)
    then ok (some (before_pos line used_len ++ space ∷ string))
    else fault

-- The loop over the words, and the line that is left: what is printed, call by call.
unfoldable pub print_words : Line → (used_len : ℕ) → (strings : List (List ℕ)) → Run (List (List ℕ))
print_words line used_len [] =
    let last : Run (List (List ℕ)) = do text ← print_line line; ok (text ∷ [])
    in if ltb 0 used_len then last else ok []
print_words line used_len (string ∷ strings) =
    let len = length string + 1 in
    let alone : ℕ → Run (List (List ℕ)) =
      λ used. do more ← print_words line used strings; ok ((string ++ newline ∷ []) ∷ more)
    in let in_line : ℕ → Run (List (List ℕ)) =
        λ used. do line' ← print_word line used string; print_words line' (used + len) strings
      in let place : ℕ → Run (List (List ℕ)) =
          λ used. if ltb (line_size + 1) len then alone used else in_line used in
        let flushed : Run (List (List ℕ)) = do
          text ← print_line line
          more ← place 0
          ok (text ∷ more)
        in let turn : Run (List (List ℕ)) =
            if ltb line_size (used_len + len) then flushed else place used_len in
          if ltb (used_len + len) (2 ^ 31) then turn else fault

take_before : (text : List ℕ) → before_pos (some text) (length text) ≡ text
unfolding before_pos
take_before text = take_all (length text) text (omega arith)

same_run : (call : Run (List (List ℕ))) → (call >>= λ more. ok ([] ++ more)) ≡ call
same_run (ok more) = refl
same_run fault = refl
same_run no_fuel = refl

-- A word that fits into the line.
print_fits :
    (line : Line) (used : ℕ) (string : List ℕ) (strings : List (List ℕ))
    → used + (length string + 1) ≤ line_size
    → print_words line used (string ∷ strings)
      ≡ print_words
          (some (before_pos line used ++ space ∷ string))
          (used + (length string + 1))
          strings
unfolding print_words print_word
print_fits line used string strings h = rw (
  lt→ltb (used + (length string + 1)) 2147483648 (omega arith),
  le→ltb 200 (used + (length string + 1)) h,
  le→ltb 201 (length string + 1) (omega arith),
  le→leb (used + (length string + 2)) 201 (omega arith),
)

-- A word that begins a new line.
print_next :
    (text string : List ℕ) (used : ℕ) (strings : List (List ℕ))
    → line_size < used + (length string + 1)
    → used ≤ line_size
    → length string < line_size
    → print_words (some text) used (string ∷ strings) ≡ (
        print_words (some (space ∷ string)) (0 + (length string + 1)) strings >>= λ more.
        ok ((text ++ newline ∷ []) ∷ more))
unfolding print_words print_word print_line before_pos
print_next text string used strings h hu hs = rw (
  lt→ltb (used + (length string + 1)) 2147483648 (omega arith),
  lt→ltb 200 (used + (length string + 1)) h,
  le→ltb 201 (length string + 1) (omega arith),
  le→leb (0 + (length string + 2)) 201 (omega arith),
)

print_last :
    (c : ℕ) (text : List ℕ) (used : ℕ)
    → used ≡ length (c ∷ text)
    → length (c ∷ text) ≤ line_size
    → print_words (some (c ∷ text)) used [] ≡ word_lines (c ∷ text) []
unfolding print_words print_line word_lines
print_last c text used e h = rw (lt→ltb 0 used (omega arith), finish_line_lem (c ∷ text) h)

print_words_from :
    (c : ℕ) (text : List ℕ) (used : ℕ) (strings : List (List ℕ))
    → used ≡ length (c ∷ text)
    → length (c ∷ text) ≤ line_size
    → All (λ s. length s < line_size) strings
    → print_words (some (c ∷ text)) used strings ≡ word_lines (c ∷ text) strings
print_words_from c text used [] e h hs = print_last c text used e h
print_words_from c text used (string ∷ strings) e h hs =
    let line = c ∷ text in
    elim (dec_lt line_size (used + (length string + 1))) [
      | no fits ↦
          let kept : before_pos (some line) used ≡ line =
            ap (before_pos (some line)) e ∙ take_before line in
          let size : used + (length string + 1) ≡ length (line ++ space ∷ string) =
            omega (arith, length-append line (space ∷ string)) in
          rw
            (
              print_fits (some line) used string strings (omega arith),
              kept,
              more_words line string strings,
              next_fits line string (omega arith),
              same_run (word_lines (line ++ space ∷ string) strings),
            )
            (print_words_from c (text ++ space ∷ string) (used + (length string + 1)) strings size
              (omega arith) hs.1)
      | yes full ↦ rw (
        print_next line string used strings full (omega arith) hs.0,
        more_words line string strings,
        next_line line string h (omega arith) hs.0,
        print_words_from space string (0 + (length string + 1)) strings (omega arith) (omega arith)
            hs.1,
      )
    ]

no_words : print_words none 0 [] ≡ word_lines [] []
unfolding print_words word_lines
no_words = refl

nested :
    (call : Run (List (List ℕ))) (a b : List ℕ)
    → ((call >>= λ more. ok (b ∷ more)) >>= λ more. ok (a ∷ more))
      ≡ (call >>= λ more. ok (a ∷ b ∷ more))
nested (ok more) a b = refl
nested fault a b = refl
nested no_fuel a b = refl

joined :
    (call : Run (List (List ℕ))) (a b c d : List ℕ)
    → ((call >>= λ more. ok (c ∷ d ∷ more)) >>= λ more. ok (a ∷ b ∷ more))
      ≡ (call >>= λ more. ok (a ∷ b ∷ c ∷ d ∷ more))
joined (ok more) a b c d = refl
joined fault a b c d = refl
joined no_fuel a b c d = refl

-- A word that is longer than a line, behind `text` in the line.
print_long :
    (text string : List ℕ) (used : ℕ) (strings : List (List ℕ))
    → used ≤ line_size
    → line_size < length string
    → length string + 201 < 2 ^ 31
    → print_words (some text) used (string ∷ strings) ≡ (
        print_words (some text) 0 strings >>= λ more.
        ok ((text ++ newline ∷ []) ∷ (string ++ newline ∷ []) ∷ more))
unfolding print_words print_line
print_long text string used strings hu h hb =
    rw
      (
        lt→ltb (used + (length string + 1)) 2147483648 (omega arith),
        lt→ltb 200 (used + (length string + 1)) (omega arith),
        lt→ltb 201 (length string + 1) (omega arith),
      )
      (nested (print_words (some text) 0 strings) (text ++ newline ∷ []) (string ++ newline ∷ []))

-- Where each word has less than 200 bytes, the program that prints the words and the server that sends
-- them come to the same lines.
pub print_words-word_lines :
    (strings : List (List ℕ))
    → All (λ s. length s < line_size) strings
    → print_words none 0 strings ≡ word_lines [] strings
unfolding before_pos
print_words-word_lines [] hs = no_words
print_words-word_lines (string ∷ strings) hs =
    rw
      (
        print_fits none 0 string strings (omega (arith, hs.0)),
        more_words [] string strings,
        next_fits [] string (omega (arith, hs.0)),
        same_run (word_lines (space ∷ string) strings),
      )
      (print_words_from space string (0 + (length string + 1)) strings (omega arith)
        (omega (arith, hs.0)) hs.1)

-- Two words that are longer than a line, one after the other behind a word that is not, make the program
-- print the line with the first word twice, once before each of them. The long ones have at most
-- 2^31 - 202 bytes.
pub print_stale_line :
    (string long other : List ℕ) (strings : List (List ℕ))
    → length string < line_size
    → line_size < length long
    → length long + 201 < 2 ^ 31
    → line_size < length other
    → length other + 201 < 2 ^ 31
    → print_words none 0 (string ∷ long ∷ other ∷ strings) ≡ (
        print_words (some (space ∷ string)) 0 strings >>= λ more. ok (
          ((space ∷ string) ++ newline ∷ [])
          ∷ (long ++ newline ∷ [])
          ∷ ((space ∷ string) ++ newline ∷ [])
          ∷ (other ++ newline ∷ [])
          ∷ more))
unfolding before_pos
print_stale_line string long other strings h hl bl ho bo =
    rw
      (
        print_fits none 0 string (long ∷ other ∷ strings) (omega arith),
        print_long (space ∷ string) long (0 + (length string + 1)) (other ∷ strings) (omega arith)
            hl bl,
        print_long (space ∷ string) other 0 strings (omega arith) ho bo,
      )
      (joined (print_words (some (space ∷ string)) 0 strings) (space ∷ string ++ newline ∷ [])
        (long ++ newline ∷ []) (space ∷ string ++ newline ∷ []) (other ++ newline ∷ []))
