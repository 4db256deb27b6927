-- ===== src/SortedWords/Tokens.antt =====
-- The words that a reader finds in the bytes that the server sends.
use mathlib.Core.List.{append_assoc, append-nil}
use sysprogramming_examples.Prelude.{
  ℕ, ◌≡◌, refl, sym, ap, ◌∙◌, Bool, false, ◌||◌, ◌==◌, List, [], ◌∷◌, ◌++◌, if◌then◌else◌,
}
use sysprogramming_examples.Order.{All}
use sysprogramming_examples.SortedWords.{space, newline}

-- Words end at a space or at the end of a line.
abbrev pub is_break : ℕ → Bool
is_break c = (c == space) || (c == newline)

abbrev pub emit : (word : List ℕ) → List (List ℕ) → List (List ℕ)
emit [] rest = rest
emit (c ∷ word) rest = (c ∷ word) ∷ rest

-- The words of a text of which `word` has been read.
abbrev pub tokens : (word text : List ℕ) → List (List ℕ)
tokens word [] = emit word []
tokens word (c ∷ text) =
    if is_break c then emit word (tokens [] text) else tokens (word ++ c ∷ []) text

abbrev pub words_of : (text : List ℕ) → List (List ℕ)
words_of text = tokens [] text

-- A word has a byte, and no space and no end of line.
abbrev pub IsWord : List ℕ → Type 0
IsWord [] = ⊥
IsWord (c ∷ word) = (is_break c ≡ false) × All (λ d. is_break d ≡ false) word

-- Words, each after a space.
abbrev pub spaced : List (List ℕ) → List ℕ
spaced [] = []
spaced (word ∷ words) = space ∷ (word ++ spaced words)

pub spaced_last :
    (words : List (List ℕ)) (word : List ℕ)
    → spaced (words ++ word ∷ []) ≡ spaced words ++ space ∷ word
spaced_last [] word = ap (λ l. space ∷ l) (append-nil word)
spaced_last (w ∷ words) word =
    ap (λ l. space ∷ (w ++ l)) (spaced_last words word)
    ∙ ap (λ l. space ∷ l) (sym (append_assoc w (spaced words) (space ∷ word)))

tokens_plain :
    (word rest text : List ℕ)
    → All (λ d. is_break d ≡ false) rest
    → tokens word (rest ++ text) ≡ tokens (word ++ rest) text
tokens_plain word [] text h = ap (λ w. tokens w text) (sym (append-nil word))
tokens_plain word (c ∷ rest) text h = rw (h.0) (
    tokens_plain (word ++ c ∷ []) rest text h.1
    ∙ ap (λ w. tokens w text) (append_assoc word (c ∷ []) rest))

word_read : (word text : List ℕ) → IsWord word → words_of (word ++ text) ≡ tokens word text
word_read [] text h = absurd h
word_read (c ∷ word) text h = tokens_plain [] (c ∷ word) text h

emit_word : (word : List ℕ) (rest : List (List ℕ)) → IsWord word → emit word rest ≡ word ∷ rest
emit_word [] rest h = absurd h
emit_word (c ∷ word) rest h = refl

-- A word at the end of a line.
pub words_of_word :
    (word text : List ℕ) → IsWord word → words_of (word ++ newline ∷ text) ≡ word ∷ words_of text
words_of_word word text h = word_read word (newline ∷ text) h ∙ emit_word word (words_of text) h

break_first :
    (word text : List ℕ) (words : List (List ℕ))
    → tokens word (spaced words ++ newline ∷ text)
      ≡ emit word (words_of (spaced words ++ newline ∷ text))
break_first word text [] = refl
break_first word text (w ∷ words) = refl

-- The words of a line.
pub words_of_line :
    (words : List (List ℕ)) (text : List ℕ)
    → All IsWord words
    → words_of (spaced words ++ newline ∷ text) ≡ words ++ words_of text
words_of_line [] text h = refl
words_of_line (w ∷ words) text h =
    ap words_of (append_assoc w (spaced words) (newline ∷ text))
    ∙ word_read w (spaced words ++ newline ∷ text) h.0
    ∙ break_first w text words
    ∙ emit_word w (words_of (spaced words ++ newline ∷ text)) h.0
    ∙ ap (λ l. w ∷ l) (words_of_line words text h.1)
