-- ===== src/Tests/Splitting.antt =====
-- split_to_array on small buffers.
use sysprogramming_examples.Prelude.{ℕ, zero, suc, ap, ◌≡◌, refl, List, [], ◌∷◌, arith}
use sysprogramming_examples.Prelude.Run.{Run, Returns}
use sysprogramming_examples.Memory.{length, load, store}
use sysprogramming_examples.Itskylib.Split.{split_to_array, result_of, collect}
use sysprogramming_examples.Itskylib.Split.Laws.{IsSplit, split_to_array-IsSplit}

-- `malloc`
abbrev unset : ℕ → List ℕ
unset zero = []
unset (suc n) = 9 ∷ unset n

length-unset : (n : ℕ) → length (unset n) ≡ n
length-unset zero = refl
length-unset (suc n) = ap suc (length-unset n)

-- "ab,,c"
abbrev two_words : List ℕ
two_words = 97 ∷ 98 ∷ 44 ∷ 44 ∷ 99 ∷ 0 ∷ []

-- ",a"
abbrev leading_separator : List ℕ
leading_separator = 44 ∷ 97 ∷ 0 ∷ []

split_two_words :
    split_to_array unset two_words 5
    ≡ Run.ok (record { content = 97 ∷ 98 ∷ 0 ∷ 99 ∷ 0 ∷ 0 ∷ []; strings = 0 ∷ 3 ∷ [] })
unfolding split_to_array result_of collect load store
split_two_words = refl

-- The first string is empty.
split_leading_separator :
    split_to_array unset leading_separator 2
    ≡ Run.ok (record { content = 0 ∷ 97 ∷ 0 ∷ []; strings = 0 ∷ 1 ∷ [] })
unfolding split_to_array result_of collect load store
split_leading_separator = refl

split_to_array-IsSplit_example : Returns (IsSplit 5) (split_to_array unset two_words 5)
split_to_array-IsSplit_example =
    split_to_array-IsSplit unset two_words 5 length-unset refl (omega arith)
