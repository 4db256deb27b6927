-- ===== src/TransmissionProtocols/Fragments.antt =====
-- read_string_fragmentable hands on the string that write_string has sent, in pieces.
use mathlib.Core.List.{append-nil, append_assoc}
use Prim.Native.Nat.{min}
use sysprogramming_examples.Prelude.{
  ℕ, suc, ◌-◌, ◌^◌, ◌≤◌, ◌<◌, ◌≡◌, refl, sym, ap, ◌∙◌, false, List, [], ◌∷◌, ◌++◌, arith, ltb, ◌==◌,
  if◌then◌else◌,
}
use sysprogramming_examples.Memory.{length, take, drop}
use sysprogramming_examples.Memory.Laws.{
  take-append_le, drop-append_le, length-append, length-take, length-drop, take-append, drop-append,
  take-append-drop,
}
use sysprogramming_examples.Order.{All}
use sysprogramming_examples.Posix.{Event, transfer, fails}
use sysprogramming_examples.TransmissionProtocols.{
  Outcome, network_bytes, fragment_loop, read_string_fragmentable,
}
use sysprogramming_examples.TransmissionProtocols.Bytes.{
  OnlyTransfers, sub_size_exact, length-network_bytes, host_number-network_bytes,
}

-- The pieces one after another.
abbrev pub joined : List (List ℕ) → List ℕ
joined [] = []
joined (p ∷ ps) = p ++ joined ps

-- A piece fits into the buffer and has a byte.
abbrev pub IsFragment : (buffer_size : ℕ) → List ℕ → Type 0
IsFragment buffer_size p = (0 < length p) × (length p ≤ buffer_size)

read_len_min : (b n : ℕ) → (if ltb b n then b else n) ≡ min b n
read_len_min b n = ground arith

fragment_step :
    (m : ℕ) (events : List Event) (ulen buffer_size : ℕ) (consumed : List (List ℕ)) (x : ℕ)
    (str rest : List ℕ)
    → 0 < buffer_size
    → suc (length str) < 2 ^ 32
    → let n = min (suc m) (min buffer_size (suc (length str))) in
      fragment_loop
        (transfer m ∷ events)
        ulen
        buffer_size
        (suc (length str))
        consumed
        (x ∷ (str ++ rest))
      ≡ fragment_loop events ulen buffer_size
          (length (drop n (x ∷ str)))
          (consumed ++ take n (x ∷ str) ∷ [])
          (drop n (x ∷ str) ++ rest)
unfolding fragment_loop
fragment_step m events ulen buffer_size consumed x str rest hb b =
    let n = min (suc m) (min buffer_size (suc (length str))) in
    let count : min (suc m) (min (min buffer_size (suc (length str))) (suc (length (str ++ rest))))
        ≡ n =
      omega (arith, length-append str rest) in
    let some_bytes : (n == 0) ≡ false = ground arith in
    let fits : ltb buffer_size n ≡ false = ground arith in
    let left : suc (length str) - n ≡ length (drop n (x ∷ str)) =
      omega (arith, length-drop n (x ∷ str)) in
    rw (
      read_len_min buffer_size (suc (length str)),
      count,
      take-append_le n (x ∷ str) rest (omega arith),
      drop-append_le n (x ∷ str) rest (omega arith),
      some_bytes,
      fits,
      sub_size_exact (suc (length str)) n (omega arith) (omega arith),
      left,
    )

fragment_loop_complete :
    (events : List Event) (ulen buffer_size : ℕ) (consumed : List (List ℕ)) (str rest : List ℕ)
    → 0 < buffer_size
    → OnlyTransfers events
    → length str ≤ length events
    → length str < 2 ^ 32
    → (pieces : List (List ℕ)) × (left : List Event) × (joined pieces ≡ str)
      × All (IsFragment buffer_size) pieces
      × (fragment_loop events ulen buffer_size (length str) consumed (str ++ rest)
          ≡ Outcome.done (record { ulen = ulen; result = consumed ++ pieces; input = rest }) left)
unfolding fragment_loop
fragment_loop_complete events ulen buffer_size consumed [] rest hb h k b = (
  [],
  events,
  refl,
  tt,
  ap (λ c. Outcome.done (record { ulen = ulen; result = c; input = rest }) events)
      (sym (append-nil consumed)),
)
fragment_loop_complete [] ulen buffer_size consumed (x ∷ str) rest hb h k b = absurd (omega arith)
fragment_loop_complete (fails e ∷ events) ulen buffer_size consumed (x ∷ str) rest hb h k b =
    absurd h
fragment_loop_complete (transfer m ∷ events) ulen buffer_size consumed (x ∷ str) rest hb h k b =
    let n = min (suc m) (min buffer_size (suc (length str))) in
    let piece = take n (x ∷ str) in
    let after = drop n (x ∷ str) in
    let (pieces, left, whole, small, done) =
      fragment_loop_complete events ulen buffer_size (consumed ++ piece ∷ []) after rest hb h
        (omega (arith, length-drop n (x ∷ str))) (omega (arith, length-drop n (x ∷ str))) in
    (
      piece ∷ pieces,
      left,
      ap (λ l. piece ++ l) whole ∙ take-append-drop n (x ∷ str),
      ((omega (arith, length-take n (x ∷ str)), omega (arith, length-take n (x ∷ str))), small),
      fragment_step m events ulen buffer_size consumed x str rest hb b
          ∙ done
          ∙ ap (λ c. Outcome.done (record { ulen = ulen; result = c; input = rest }) left)
              (append_assoc consumed (piece ∷ []) pieces),
    )

-- With no failing call and a first call that takes the whole length, read_string_fragmentable hands
-- the string that follows a length to the caller in pieces: each has a byte and fits into the buffer,
-- one after another they are the string, and what is sent later is left to be read.
pub read_string_fragmentable_complete :
    (k : ℕ) (events : List Event) (buffer_size : ℕ) (str later : List ℕ)
    → 3 ≤ k
    → OnlyTransfers events
    → length str ≤ length events
    → 0 < buffer_size
    → 0 < length str
    → length str < 2 ^ 32
    → (pieces : List (List ℕ)) × (left : List Event) × (joined pieces ≡ str)
      × All (IsFragment buffer_size) pieces
      × (read_string_fragmentable
            (transfer k ∷ events)
            buffer_size
            (network_bytes (length str) ++ (str ++ later))
          ≡ Outcome.done (record { ulen = length str; result = pieces; input = later }) left)
unfolding read_string_fragmentable
read_string_fragmentable_complete k events buffer_size str later hk h l hb pos b =
    let header = network_bytes (length str) in
    let four : min (suc k) (min 4 (length (header ++ (str ++ later)))) ≡ 4 =
      omega (arith, length-append header (str ++ later), length-network_bytes (length str)) in
    let some_bytes : (length str == 0) ≡ false = ground arith in
    let (pieces, left, whole, small, done) =
      fragment_loop_complete events (length str) buffer_size [] str later hb h l b in
    (
      pieces,
      left,
      whole,
      small,
      rw
          (
            four,
            take-append 4 header (str ++ later) (sym (length-network_bytes (length str))),
            drop-append 4 header (str ++ later) (sym (length-network_bytes (length str))),
            host_number-network_bytes (length str) b,
            some_bytes,
          )
          done,
    )
