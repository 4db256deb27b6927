-- ===== src/Tests/Classes.antt =====
-- The counts of the classes in fsort.c for five numbers in three classes.
use sysprogramming_examples.Prelude.{ℕ, ◌/◌, ◌≡◌, List, [], ◌∷◌, arith}
use sysprogramming_examples.Prelude.Run.{Returns}
use sysprogramming_examples.Memory.{length, get_or}
use sysprogramming_examples.Fsort.{count_classes, filled}
use sysprogramming_examples.Fsort.Classes.{tally, count_classes_lem}

abbrev tens : ℕ → ℕ
tens n = n / 10

abbrev numbers : List ℕ
numbers = 12 ∷ 3 ∷ 25 ∷ 17 ∷ 8 ∷ []

count_classes_lem_example :
    Returns
      (λ l. (length l ≡ 3) × ((k : ℕ) → get_or l k 0 ≡ tally tens k numbers))
      (count_classes tens 5 0 numbers (filled 3 0))
count_classes_lem_example =
    count_classes_lem tens 3 numbers
      (omega arith, (omega arith, (omega arith, (omega arith, (omega arith, tt))))) (omega arith)
