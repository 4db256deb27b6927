-- ===== src/Tests/Strings.antt =====
-- Strings over a socket, in pieces of several sizes.
use sysprogramming_examples.Prelude.{
  ℕ, ◌-◌, ◌≤◌, zero, suc, ◌≡◌, refl, ap, List, [], ◌∷◌, ◌++◌, arith,
}
use sysprogramming_examples.Memory.{length}
use sysprogramming_examples.Order.{All}
use sysprogramming_examples.Posix.{Event, transfer, fails, eintr}
use sysprogramming_examples.TransmissionProtocols.{
  Outcome, network_bytes, write_string, read_and_store_string, read_string,
  read_string_fragmentable,
}
use sysprogramming_examples.TransmissionProtocols.Writing.{write_string_complete}
use sysprogramming_examples.TransmissionProtocols.Reading.{
  read_and_store_string-write_string, read_string-write_string,
}
use sysprogramming_examples.TransmissionProtocols.Fragments.{
  joined, IsFragment, read_string_fragmentable_complete,
}
use sysprogramming_examples.TransmissionProtocols.Failures.{write_string_repeats}
use sysprogramming_examples.TransmissionProtocols.Commands.{
  zeros, write_4byte_string, read_4byte_string, read_4byte_string-write_4byte_string,
}

abbrev abc : List ℕ
abc = 97 ∷ 98 ∷ 99 ∷ []

-- Pieces of two bytes, one byte and at most ten bytes.
abbrev pieces : List Event
pieces = transfer 1 ∷ transfer 0 ∷ transfer 9 ∷ []

-- `malloc` with memory that is not cleared.
abbrev filled : ℕ → List ℕ
filled zero = []
filled (suc n) = 7 ∷ filled n

length-filled : (n : ℕ) → length (filled n) ≡ n
length-filled zero = refl
length-filled (suc n) = ap suc (length-filled n)

write_string_complete_example :
    (left : List Event) × (write_string (transfer 3 ∷ pieces) abc 3 []
      ≡ Outcome.done ([] ++ (network_bytes 3 ++ abc)) left)
write_string_complete_example =
    write_string_complete 3 pieces abc [] (omega arith) tt (omega arith) (omega arith)

read_and_store_string-write_string_example :
    (sent : List ℕ) × (ws' : List Event) × (rs' : List Event) × (write_string
        (transfer 3 ∷ pieces)
        abc
        3
        []
      ≡ Outcome.done sent ws')
    × (read_and_store_string (transfer 5 ∷ pieces) filled (sent ++ (9 ∷ []))
        ≡ Outcome.done (record { ulen = 3; result = abc ++ 0 ∷ []; input = 9 ∷ [] }) rs')
read_and_store_string-write_string_example =
    read_and_store_string-write_string 3 5 pieces pieces filled abc (9 ∷ []) (omega arith)
      (omega arith) tt tt (omega arith) (omega arith) (omega arith) (omega arith) length-filled

read_string_fragmentable_complete_example :
    (parts : List (List ℕ)) × (left : List Event) × (joined parts ≡ abc)
    × All (IsFragment 2) parts
    × (read_string_fragmentable (transfer 3 ∷ pieces) 2 (network_bytes 3 ++ (abc ++ (9 ∷ [])))
        ≡ Outcome.done (record { ulen = 3; result = parts; input = 9 ∷ [] }) left)
read_string_fragmentable_complete_example =
    read_string_fragmentable_complete 3 pieces 2 abc (9 ∷ []) (omega arith) tt (omega arith)
      (omega arith) (omega arith) (omega arith)

write_string_repeats_example :
    (left : List Event) × (write_string
        (transfer 3 ∷ transfer 0 ∷ fails eintr ∷ pieces)
        (97 ∷ 98 ∷ 99 ∷ [])
        3
        []
      ≡ Outcome.done ([] ++ (network_bytes 3 ++ (97 ∷ 97 ∷ 98 ∷ 99 ∷ []))) left)
write_string_repeats_example =
    write_string_repeats 3 eintr pieces [] (98 ∷ 99 ∷ []) [] 97 (omega arith) tt (omega arith)
      (omega arith) (omega arith)

abbrev quit : List ℕ
quit = 81 ∷ 85 ∷ 73 ∷ 84 ∷ []

at_most_two : (j : ℕ) → transfer 2 ≡ transfer j → j ≤ 3
at_most_two j e = let k : 2 ≡ j = cc in omega arith

read_4byte_string-write_4byte_string_example :
    (sent : List ℕ) × (write_4byte_string (transfer 4 ∷ []) quit [] ≡ Outcome.done sent [])
    × (read_4byte_string (transfer 8 ∷ pieces) (sent ++ abc)
        ≡ Outcome.done (quit ++ zeros (5 - length quit), abc) pieces)
read_4byte_string-write_4byte_string_example =
    read_4byte_string-write_4byte_string 4 8 [] pieces quit abc (omega arith) (omega arith)
      (omega arith)

read_string-write_string_example :
    (sent : List ℕ) × (ws' : List Event) × (rs' : List Event) × (write_string
        (transfer 3 ∷ pieces)
        abc
        3
        []
      ≡ Outcome.done sent ws')
    × (read_string (transfer 5 ∷ pieces) filled (sent ++ (9 ∷ []))
        ≡ Outcome.done (record { ulen = 3; result = abc ∷ []; input = 9 ∷ [] }) rs')
read_string-write_string_example =
    read_string-write_string 3 5 pieces pieces filled abc (9 ∷ []) (omega arith) (omega arith) tt tt
      (omega arith) (omega arith) (omega arith) (omega arith) length-filled
