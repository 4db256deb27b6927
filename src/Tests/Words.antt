-- ===== src/Tests/Words.antt =====
-- A few words that are sent and printed.
use sysprogramming_examples.Prelude.{
  ℕ, zero, suc, ◌≡◌, refl, List, [], ◌∷◌, ◌++◌, none, some, arith,
}
use sysprogramming_examples.Prelude.Run.{ok, fault, Returns, ◌>>=◌}
use sysprogramming_examples.SortedWords.{
  word_lines, next_word, place_word, append_word, finish_line, newline, parse_option,
  selected_sort_type, mt_merge_sort,
}
use sysprogramming_examples.SortedWords.Laws.{IsRendered, word_lines_lem, word_lines_overflow}
use sysprogramming_examples.SortedWords.Printed.{
  print_words, print_words-word_lines, print_stale_line,
}

-- "ab", "c"
abbrev two_words : List (List ℕ)
two_words = (97 ∷ 98 ∷ []) ∷ (99 ∷ []) ∷ []

-- `n` letters.
abbrev letters : ℕ → List ℕ
letters zero = []
letters (suc n) = 97 ∷ letters n

lines : word_lines [] two_words ≡ ok ((32 ∷ 97 ∷ 98 ∷ 32 ∷ 99 ∷ 10 ∷ []) ∷ [])
unfolding word_lines next_word place_word append_word finish_line
lines = refl

option-m : parse_option (45 ∷ 109 ∷ []) ≡ some mt_merge_sort
unfolding parse_option selected_sort_type
option-m = refl

word_lines_lem_example : Returns (IsRendered [] two_words) (word_lines [] two_words)
word_lines_lem_example =
    word_lines_lem two_words ((refl, (refl, tt)), ((refl, tt), tt)) (omega arith, (omega arith, tt))
      (omega arith, (omega arith, tt))

word_lines_overflow_example : word_lines [] (letters 200 ∷ two_words) ≡ fault
word_lines_overflow_example = word_lines_overflow [] (letters 200) two_words (omega arith) refl

print_words-word_lines_example : print_words none 0 two_words ≡ word_lines [] two_words
print_words-word_lines_example = print_words-word_lines two_words (omega arith, (omega arith, tt))

print_stale_line_example :
    print_words none 0 ((98 ∷ []) ∷ letters 201 ∷ letters 202 ∷ two_words) ≡ (
      print_words (some (32 ∷ 98 ∷ [])) 0 two_words >>= λ more. ok (
        (32 ∷ 98 ∷ newline ∷ [])
        ∷ (letters 201 ++ newline ∷ [])
        ∷ (32 ∷ 98 ∷ newline ∷ [])
        ∷ (letters 202 ++ newline ∷ [])
        ∷ more))
print_stale_line_example =
    print_stale_line (98 ∷ []) (letters 201) (letters 202) two_words (omega arith) (omega arith)
      (omega arith) (omega arith) (omega arith)
