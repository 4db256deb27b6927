-- ===== src/Itskylib/Transfer/Laws.antt =====
-- readn and writen move all bytes, however the transfer is cut into pieces.
use mathlib.Core.List.{append-nil, append_assoc}
use Prim.Native.Nat.{min}
use sysprogramming_examples.Prelude.{
  ℕ, zero, suc, ◌+◌, ◌-◌, ◌≤◌, ◌<◌, ◌≡◌, refl, sym, ap, ◌∙◌, true, false, List, [], ◌∷◌, ◌++◌,
  arith, ◌==◌, ℤ, pos, is_neg, Bool-cases, inl, inr,
}
use sysprogramming_examples.Memory.{length, take, drop}
use sysprogramming_examples.Memory.Laws.{
  take-append-drop, length-take, length-drop, length-append, take-add, drop-drop,
}
use sysprogramming_examples.Posix.{Event, transfer, fails, transfers}
use sysprogramming_examples.Itskylib.Transfer.{
  is_eintr, ReadOutcome, readn_loop, readn, WriteOutcome, writen_loop, writen,
}

-- Calls fail only because a signal has interrupted them.
abbrev pub OnlyInterrupted : List Event → Type 0
OnlyInterrupted [] = Unit
OnlyInterrupted (transfer k ∷ es) = OnlyInterrupted es
OnlyInterrupted (fails e ∷ es) = (is_eintr e ≡ true) × OnlyInterrupted es

readn_loop_complete :
    (events : List Event) (rest : ℕ) (buf input : List ℕ)
    → OnlyInterrupted events
    → rest < transfers events
    → readn_loop events rest (length buf) buf input
      ≡ ReadOutcome.finished
          (pos (length buf + min rest (length input)))
          (buf ++ take rest input)
          (drop rest input)
unfolding readn_loop
readn_loop_complete events zero buf input h k =
    let e : length buf + min 0 (length input) ≡ length buf = omega arith in rw (e, append-nil buf)
readn_loop_complete [] (suc rest) buf input h k = absurd (omega arith)
readn_loop_complete (fails e ∷ events) (suc rest) buf input h k =
    rw h.0 (readn_loop_complete events (suc rest) buf input h.1 k)
readn_loop_complete (transfer k ∷ events) (suc rest) buf [] h p =
    let nothing : min (suc k) (min (suc rest) 0) ≡ 0 = omega arith in
    let size : length buf + min (suc rest) 0 ≡ length buf = omega arith in
    rw (nothing, size, append-nil buf)
readn_loop_complete (transfer k ∷ events) (suc rest) buf (x ∷ input) h p =
    let n = min (suc k) (min (suc rest) (suc (length input))) in
    let piece = take n (x ∷ input) in
    let size : length piece ≡ n = omega (arith, length-take n (x ∷ input)) in
    let some_bytes : (n == 0) ≡ false = ground arith in
    let left = suc rest - n in
    let size' : length buf + n ≡ length (buf ++ piece) = omega (arith, length-append buf piece) in
    let total : length (buf ++ piece) + min left (length (drop n (x ∷ input)))
        ≡ length buf + min (suc rest) (suc (length input)) =
      omega (arith, length-append buf piece, length-drop n (x ∷ input)) in
    let whole : (buf ++ piece) ++ take left (drop n (x ∷ input))
        ≡ buf ++ take (suc rest) (x ∷ input) =
      append_assoc buf piece (take left (drop n (x ∷ input)))
      ∙ ap (λ l. buf ++ l) (take-add n left (suc rest) (x ∷ input) (omega arith)) in
    let after = drop-drop left n (suc rest) (x ∷ input) (omega arith) in
    rw (size, some_bytes, size')
      (readn_loop_complete events left (buf ++ piece) (drop n (x ∷ input)) h (omega arith)
        ∙ rw (total, whole, after))

-- readn on a valid descriptor, if calls fail only by interruption and enough of them transfer
-- something: it returns the number of bytes asked for, or of those that there are, whichever is
-- less; the buffer holds these bytes in order, and the bytes after them are left to be read.
pub readn_complete :
    (fd : ℤ) (events : List Event) (total : ℕ) (input : List ℕ)
    → is_neg fd ≡ false
    → OnlyInterrupted events
    → total < transfers events
    → readn fd events total input
      ≡ ReadOutcome.finished (pos (min total (length input))) (take total input) (drop total input)
unfolding readn
readn_complete fd events total input hfd h k =
    let sum : 0 + min total (length input) ≡ min total (length input) = omega arith in
    rw (hfd, ← sum) (readn_loop_complete events total [] input h k)

-- What the other end has received after writen.
pub output_of : WriteOutcome → List ℕ
output_of (WriteOutcome.finished v o) = o
output_of (WriteOutcome.waiting o) = o

writen_loop_complete :
    (events : List Event) (rest : List ℕ) (written : ℕ) (output : List ℕ)
    → OnlyInterrupted events
    → length rest ≤ transfers events
    → writen_loop events rest written output
      ≡ WriteOutcome.finished (pos (written + length rest)) (output ++ rest)
unfolding writen_loop
writen_loop_complete events [] written output h k =
    let e : written + 0 ≡ written = omega arith in rw (e, append-nil output)
writen_loop_complete [] (b ∷ rest) written output h k = absurd (omega arith)
writen_loop_complete (fails e ∷ events) (b ∷ rest) written output h k =
    rw h.0 (writen_loop_complete events (b ∷ rest) written output h.1 k)
writen_loop_complete (transfer k ∷ events) (b ∷ rest) written output h p =
    let n = min (suc k) (suc (length rest)) in
    let some_bytes : (n == 0) ≡ false = ground arith in
    let total : written + n + length (drop n (b ∷ rest)) ≡ written + suc (length rest) =
      omega (arith, length-drop n (b ∷ rest)) in
    rw some_bytes (
      writen_loop_complete events (drop n (b ∷ rest)) (written + n) (output ++ take n (b ∷ rest)) h
        (omega (arith, length-drop n (b ∷ rest)))
      ∙ rw (
        total,
        append_assoc output (take n (b ∷ rest)) (drop n (b ∷ rest)),
        take-append-drop n (b ∷ rest),
      ))

-- writen on a valid descriptor, if calls fail only by interruption and enough of them transfer
-- something: the other end has received all of the buffer, once and in order, and the number of its
-- bytes is returned.
pub writen_complete :
    (fd : ℤ) (events : List Event) (buf output : List ℕ)
    → is_neg fd ≡ false
    → OnlyInterrupted events
    → length buf ≤ transfers events
    → writen fd events buf output ≡ WriteOutcome.finished (pos (length buf)) (output ++ buf)
unfolding writen
writen_complete fd events buf output hfd h k =
    let sum : 0 + length buf ≡ length buf = omega arith in
    rw (hfd, ← sum) (writen_loop_complete events buf 0 output h k)

writen_loop_prefix :
    (events : List Event) (rest : List ℕ) (written : ℕ) (output : List ℕ)
    → (n : ℕ) × (n ≤ length rest)
      × (output_of (writen_loop events rest written output) ≡ output ++ take n rest)
unfolding writen_loop output_of
writen_loop_prefix events [] written output = (0, omega arith, sym (append-nil output))
writen_loop_prefix [] (b ∷ rest) written output = (0, omega arith, sym (append-nil output))
writen_loop_prefix (fails e ∷ events) (b ∷ rest) written output = elim (Bool-cases (is_eintr e)) [
  | inl again ↦ rw again (writen_loop_prefix events (b ∷ rest) written output)
  | inr failed ↦ (0, omega arith, rw failed (sym (append-nil output)))
]
writen_loop_prefix (transfer k ∷ events) (b ∷ rest) written output =
    let n = min (suc k) (suc (length rest)) in
    let some_bytes : (n == 0) ≡ false = ground arith in
    let (m, hm, e) =
      writen_loop_prefix events (drop n (b ∷ rest)) (written + n) (output ++ take n (b ∷ rest)) in
    (
      n + m,
      omega (arith, length-drop n (b ∷ rest)),
      rw some_bytes (
          e
          ∙ append_assoc output (take n (b ∷ rest)) (take m (drop n (b ∷ rest)))
          ∙ ap (λ l. output ++ l) (take-add n m (n + m) (b ∷ rest) refl)),
    )

-- Whatever the calls do, errors included, the other end receives a part of the buffer from its
-- beginning: nothing is left out, repeated or reordered.
pub writen_prefix :
    (fd : ℤ) (events : List Event) (buf output : List ℕ)
    → (n : ℕ) × (n ≤ length buf) × (output_of (writen fd events buf output) ≡ output ++ take n buf)
unfolding writen output_of
writen_prefix fd events buf output = elim (Bool-cases (is_neg fd)) [
  | inl bad ↦ (0, omega arith, rw bad (sym (append-nil output)))
  | inr good ↦ rw good (writen_loop_prefix events buf 0 output)
]
