-- ===== src/TransmissionProtocols/Failures.antt =====
-- What a failing call does: its -1 is taken for the size 2^64 - 1.
use mathlib.Core.List.{append_assoc}
use Prim.Native.Nat.{min}
use sysprogramming_examples.Prelude.{
  ℕ, suc, ◌≤◌, refl, sym, ap, ◌∙◌, [], ◌++◌, ◌+◌, ◌-◌, ◌^◌, ◌<◌, ◌≡◌, List, ◌∷◌, arith, size_mod,
  le→leb,
}
use sysprogramming_examples.Memory.{length, take, drop}
use sysprogramming_examples.Memory.Laws.{length-append, take-append, drop-append}
use sysprogramming_examples.Posix.{Event, transfer, fails, Errno}
use sysprogramming_examples.TransmissionProtocols.{
  Outcome, network_bytes, write_loop, write_string, add_size, sub_size,
}
use sysprogramming_examples.TransmissionProtocols.Bytes.{OnlyTransfers}
use sysprogramming_examples.TransmissionProtocols.Writing.{
  write_step, write_loop_complete, write_string_header,
}

-- A write that fails in the middle of a string is taken for one that has moved the pointer back by
-- a byte.
failing_write_resends :
    (x : Errno) (events : List Event) (str : List ℕ) (ptr rest : ℕ) (output : List ℕ)
    → suc ptr + suc rest ≡ length str
    → length str < 2 ^ 32
    → write_loop (fails x ∷ events) str (suc ptr) (suc rest) output
      ≡ write_loop events str ptr (suc (suc rest)) output
unfolding write_loop
failing_write_resends x events str ptr rest output e b =
    let back : add_size (suc ptr) (size_mod - 1) ≡ ptr = omega arith in
    let more : sub_size (suc rest) (size_mod - 1) ≡ suc (suc rest) = omega arith in
    rw (le→leb (suc ptr + suc rest) (length str) (omega arith), back, more)

-- What a failing write is told to send once more.
resent :
    (before after output : List ℕ) (c : ℕ) (header : List ℕ)
    → ((output ++ header) ++ take (length before + 1) (before ++ c ∷ after))
        ++ drop (length before) (before ++ c ∷ after)
      ≡ output ++ (header ++ (before ++ c ∷ c ∷ after))
resent before after output c header =
    let first : take (length before + 1) (before ++ c ∷ after) ≡ before ++ c ∷ [] =
      ap (take (length before + 1)) (sym (append_assoc before (c ∷ []) after))
      ∙ take-append (length before + 1) (before ++ c ∷ []) after
          (omega (arith, length-append before (c ∷ []))) in
    rw (first, drop-append (length before) before (c ∷ after) refl)
      (append_assoc (output ++ header) (before ++ c ∷ []) (c ∷ after)
        ∙ append_assoc output header ((before ++ c ∷ []) ++ c ∷ after)
        ∙ ap (λ l. output ++ (header ++ l)) (append_assoc before (c ∷ []) (c ∷ after)))

-- write_string does not notice a write that fails: where the call before it has ended with the byte
-- `c`, that byte is sent twice, so that more bytes follow the length than it says, and the function
-- returns as ever. The string has less than 2^32 bytes and goes on behind `c`; the first call takes the
-- length, and behind the failing call there are enough calls that do not fail.
pub write_string_repeats :
    (k : ℕ) (x : Errno) (events : List Event) (before after output : List ℕ) (c : ℕ)
    → 3 ≤ k
    → OnlyTransfers events
    → 0 < length after
    → suc (length after) ≤ length events
    → length (before ++ c ∷ after) < 2 ^ 32
    → (left : List Event) × (write_string
          (transfer k ∷ transfer (length before) ∷ fails x ∷ events)
          (before ++ c ∷ after)
          (length (before ++ c ∷ after))
          output
        ≡ Outcome.done
            (output ++ (network_bytes (length (before ++ c ∷ after)) ++ (before ++ c ∷ c ∷ after)))
            left)
write_string_repeats k x events before [] output c hk only more enough b = absurd (omega arith)
write_string_repeats k x events before (d ∷ after) output c hk only more enough b =
    let str = before ++ c ∷ d ∷ after in
    let header = network_bytes (length str) in
    let size : length str ≡ suc (suc (length before + length after)) =
      omega (arith, length-append before (c ∷ d ∷ after)) in
    let rest = suc (length before + length after) in
    let sent = (output ++ header) ++ take (length before + 1) str in
    let moved : min (suc (length before)) (suc rest) ≡ length before + 1 = omega arith in
    let left_over : suc rest - (length before + 1) ≡ suc (length after) = omega arith in
    let pointer : 0 + (length before + 1) ≡ suc (length before) = omega arith in
    let one : write_loop (transfer (length before) ∷ fails x ∷ events) str 0 (suc rest)
          (output ++ header)
        ≡ write_loop (fails x ∷ events) str (suc (length before)) (suc (length after)) sent =
      rw (← left_over, ← pointer, ← moved)
        (write_step (length before) (fails x ∷ events) str 0 rest (output ++ header)
          (omega (arith, size)) b) in
    let (left, done) =
      write_loop_complete events str (length before) (suc (suc (length after))) sent only enough
        (omega (arith, size)) b in
    (
      left,
      write_string_header k (transfer (length before) ∷ fails x ∷ events) str output hk b
          ∙ ap
              (λ n.
                write_loop (transfer (length before) ∷ fails x ∷ events) str 0 n (output ++ header))
              size
          ∙ one
          ∙ failing_write_resends x events str (length before) (length after) sent
              (omega (arith, size)) b
          ∙ done
          ∙ ap (λ l. Outcome.done l left) (resent before (d ∷ after) output c header),
    )
