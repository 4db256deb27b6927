-- ===== src/TransmissionProtocols/Writing.antt =====
-- write_string sends the length and the bytes.
use mathlib.Core.List.{append-nil, append_assoc}
use Prim.Native.Nat.{min}
use sysprogramming_examples.Prelude.{
  ℕ, zero, suc, ◌+◌, ◌-◌, ◌%◌, ◌^◌, ◌≤◌, ◌<◌, ◌≡◌, refl, sym, ap, ◌∙◌, true, false, List, [], ◌∷◌,
  ◌++◌, arith, ◌==◌, size_mod, le→leb,
}
use sysprogramming_examples.Memory.{length, take, drop}
use sysprogramming_examples.Memory.Laws.{
  length-drop, take-append-drop, take_all, drop_all, drop-drop,
}
use sysprogramming_examples.Posix.{Event, transfer, fails}
use sysprogramming_examples.TransmissionProtocols.{
  Outcome, network_bytes, write_loop, write_header, write_string,
}
use sysprogramming_examples.TransmissionProtocols.Bytes.{
  OnlyTransfers, add_size_exact, sub_size_exact, length-network_bytes,
}

-- A call that moves n bytes.
pub write_step :
    (m : ℕ) (events : List Event) (str : List ℕ) (ptr rest : ℕ) (output : List ℕ)
    → ptr + suc rest ≡ length str
    → length str < 2 ^ 32
    → let n = min (suc m) (suc rest) in
      write_loop (transfer m ∷ events) str ptr (suc rest) output
      ≡ write_loop events str (ptr + n) (suc rest - n) (output ++ take n (drop ptr str))
unfolding write_loop
write_step m events str ptr rest output e b =
    let n = min (suc m) (suc rest) in
    let size : length (drop ptr str) ≡ suc rest = omega (arith, length-drop ptr str) in
    let whole : take (suc rest) (drop ptr str) ≡ drop ptr str =
      take_all (suc rest) (drop ptr str) (omega arith) in
    rw (
      whole,
      size,
      le→leb (ptr + suc rest) (length str) (omega arith),
      add_size_exact ptr n (omega arith),
      sub_size_exact (suc rest) n (omega arith) (omega arith),
    )

pub write_loop_complete :
    (events : List Event) (str : List ℕ) (ptr rest : ℕ) (output : List ℕ)
    → OnlyTransfers events
    → rest ≤ length events
    → ptr + rest ≡ length str
    → length str < 2 ^ 32
    → (left : List Event) × (write_loop events str ptr rest output
        ≡ Outcome.done (output ++ drop ptr str) left)
unfolding write_loop
write_loop_complete events str ptr zero output h k e b =
    let nothing = drop_all ptr str (omega arith) in (events, rw (nothing, append-nil output))
write_loop_complete [] str ptr (suc rest) output h k e b = absurd (omega arith)
write_loop_complete (fails x ∷ events) str ptr (suc rest) output h k e b = absurd h
write_loop_complete (transfer m ∷ events) str ptr (suc rest) output h k e b =
    let tail = drop ptr str in
    let n = min (suc m) (suc rest) in
    let (left, done) =
      write_loop_complete events str (ptr + n) (suc rest - n) (output ++ take n tail) h
        (omega arith) (omega arith) b in
    let sent : (output ++ take n tail) ++ drop (ptr + n) str ≡ output ++ tail =
      append_assoc output (take n tail) (drop (ptr + n) str)
      ∙ ap (λ l. output ++ (take n tail ++ l)) (sym (drop-drop n ptr (ptr + n) str (omega arith)))
      ∙ ap (λ l. output ++ l) (take-append-drop n tail) in
    (
      left,
      write_step m events str ptr rest output (omega arith) b
          ∙ done
          ∙ ap (λ l. Outcome.done l left) sent,
    )

-- The first call takes the length.
pub write_string_header :
    (k : ℕ) (events : List Event) (str output : List ℕ)
    → 3 ≤ k
    → length str < 2 ^ 32
    → write_string (transfer k ∷ events) str (length str) output
      ≡ write_loop events str 0 (length str) (output ++ network_bytes (length str))
unfolding write_string write_header
write_string_header k events str output hk b =
    let header = network_bytes (length str) in
    let given : (length str == (size_mod - 1)) ≡ false = ground arith in
    let fits : ((length str) % 2 ^ 32 == length str) ≡ true = ground arith in
    let four : min (suc k) (length header) ≡ 4 = omega (arith, length-network_bytes (length str)) in
    let all_four : take 4 header ≡ header =
      take_all 4 header (omega (arith, length-network_bytes (length str))) in
    rw (given, fits, four, all_four) refl

-- Without failing calls, of which the first takes the whole length, write_string returns: it has
-- sent the length of the string in network byte order and then the string, in however many pieces.
-- The string is shorter than 2^32 bytes, and there is a call for each byte at least.
pub write_string_complete :
    (k : ℕ) (events : List Event) (str output : List ℕ)
    → 3 ≤ k
    → OnlyTransfers events
    → length str ≤ length events
    → length str < 2 ^ 32
    → (left : List Event) × (write_string (transfer k ∷ events) str (length str) output
        ≡ Outcome.done (output ++ (network_bytes (length str) ++ str)) left)
write_string_complete k events str output hk h e b =
    let header = network_bytes (length str) in
    let (left, done) =
      write_loop_complete events str 0 (length str) (output ++ header) h e (omega arith) b in
    (
      left,
      write_string_header k events str output hk b
          ∙ done
          ∙ ap (λ l. Outcome.done l left) (append_assoc output header str),
    )

-- A string of 2^32 bytes or more is refused: nothing is sent and the thread is ended.
pub write_string_too_long :
    (events : List Event) (str : List ℕ) (len : ℕ) (output : List ℕ)
    → 2 ^ 32 ≤ len
    → len < size_mod - 1
    → write_string events str len output ≡ Outcome.thread_ended
unfolding write_string
write_string_too_long events str len output h k =
    let given : (len == (size_mod - 1)) ≡ false = ground arith in
    let refused : (len % 2 ^ 32 == len) ≡ false = ground arith in rw (given, refused)
