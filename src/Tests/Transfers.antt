-- ===== src/Tests/Transfers.antt =====
-- readn and writen with calls that are interrupted and that move a part.
use sysprogramming_examples.Prelude.{ℕ, ◌≤◌, ◌≡◌, refl, List, [], ◌∷◌, ◌++◌, pos, arith}
use Prim.Native.Nat.{min}
use sysprogramming_examples.Memory.{length, take, drop}
use sysprogramming_examples.Posix.{Event, transfer, fails, eintr, enoent}
use sysprogramming_examples.Itskylib.Transfer.{ReadOutcome, readn, WriteOutcome, writen}
use sysprogramming_examples.Itskylib.Transfer.Laws.{
  readn_complete, writen_complete, writen_prefix, output_of,
}

abbrev bytes : List ℕ
bytes = 1 ∷ 2 ∷ 3 ∷ []

abbrev interrupted : List Event
interrupted = fails eintr ∷ transfer 1 ∷ fails eintr ∷ transfer 0 ∷ transfer 4 ∷ transfer 0 ∷ []

abbrev broken : List Event
broken = transfer 0 ∷ fails enoent ∷ []

readn_complete_example :
    readn (pos 4) interrupted 2 bytes
    ≡ ReadOutcome.finished (pos (min 2 (length bytes))) (take 2 bytes) (drop 2 bytes)
readn_complete_example =
    readn_complete (pos 4) interrupted 2 bytes refl (refl, (refl, tt)) (omega arith)

writen_complete_example :
    writen (pos 4) interrupted bytes (9 ∷ []) ≡ WriteOutcome.finished (pos 3) ((9 ∷ []) ++ bytes)
writen_complete_example =
    writen_complete (pos 4) interrupted bytes (9 ∷ []) refl (refl, (refl, tt)) (omega arith)

writen_prefix_example :
    (n : ℕ) × (n ≤ length bytes) × (output_of (writen (pos 4) broken bytes []) ≡ [] ++ take n bytes)
writen_prefix_example = writen_prefix (pos 4) broken bytes []
