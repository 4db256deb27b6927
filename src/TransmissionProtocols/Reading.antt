-- ===== src/TransmissionProtocols/Reading.antt =====
-- read_and_store_string returns what write_string has sent.
use native.Mathlib.Nat.{mod-eq_of_lt}
use mathlib.Core.List.{append-nil, append_assoc}
use Prim.Native.Nat.{min}
use sysprogramming_examples.Prelude.{
  ℕ, suc, ◌+◌, ◌-◌, ◌^◌, ◌≤◌, ◌<◌, ◌≡◌, refl, sym, ap, ◌∙◌, true, false, ltb, lt→ltb, ◌%◌, List, [],
  ◌∷◌, ◌++◌, arith, ◌==◌,
}
use sysprogramming_examples.Memory.{length, take, drop}
use sysprogramming_examples.Memory.Laws.{
  take-append_le, drop-append_le, length-append, length-take, length-drop, take-append, drop-append,
  take-append-drop, drop_all,
}
use sysprogramming_examples.Memory.Access.{move_block-At}
use sysprogramming_examples.Posix.{Event, transfer, fails}
use sysprogramming_examples.TransmissionProtocols.{
  Outcome, network_bytes, store_loop, read_and_store_string, consume_stored, read_string,
  write_string,
}
use sysprogramming_examples.TransmissionProtocols.Bytes.{
  OnlyTransfers, add_size_exact, sub_size_exact, length-network_bytes, host_number-network_bytes,
}
use sysprogramming_examples.TransmissionProtocols.Writing.{write_string_complete}

-- A call that moves n bytes.
store_step :
    (m : ℕ) (events : List Event) (ulen : ℕ) (stored junk : List ℕ) (x : ℕ) (str rest : List ℕ)
    (ptr : ℕ)
    → length stored + suc (length str) < 2 ^ 32
    → ptr ≡ length stored
    → length junk ≡ suc (length str)
    → let n = min (suc m) (suc (length str)) in
      store_loop
        (transfer m ∷ events)
        ulen
        (stored ++ (junk ++ 0 ∷ []))
        ptr
        (suc (length str))
        (x ∷ (str ++ rest))
      ≡ store_loop events ulen
          ((stored ++ take n (x ∷ str)) ++ (drop n junk ++ 0 ∷ []))
          (ptr + n)
          (length (drop n (x ∷ str)))
          (drop n (x ∷ str) ++ rest)
unfolding store_loop
store_step m events ulen stored junk x str rest ptr b hp hj =
    let n = min (suc m) (suc (length str)) in
    let count : min (suc m) (min (suc (length str)) (suc (length (str ++ rest)))) ≡ n =
      omega (arith, length-append str rest) in
    let piece = take n (x ∷ str) in
    let size : length piece ≡ n = omega (arith, length-take n (x ∷ str)) in
    let moved =
      move_block-At stored (junk ++ 0 ∷ []) piece piece ptr 0 n hp (omega arith)
        (omega (arith, length-append junk (0 ∷ []))) (omega arith) ([], sym (append-nil piece)) in
    let some_bytes : (n == 0) ≡ false = ground arith in
    let left : suc (length str) - n ≡ length (drop n (x ∷ str)) =
      omega (arith, length-drop n (x ∷ str)) in
    rw (
      count,
      take-append_le n (x ∷ str) rest (omega arith),
      some_bytes,
      size,
      moved,
      count,
      drop-append_le n (x ∷ str) rest (omega arith),
      drop-append_le n junk (0 ∷ []) (omega arith),
      add_size_exact ptr n (omega arith),
      sub_size_exact (suc (length str)) n (omega arith) (omega arith),
      left,
      append_assoc stored piece (drop n junk ++ 0 ∷ []),
    )

-- `stored` is in the buffer, `junk` is the part of the buffer that is not yet written.
store_loop_complete :
    (events : List Event) (ulen : ℕ) (stored junk str rest : List ℕ) (ptr : ℕ)
    → OnlyTransfers events
    → length str ≤ length events
    → length stored + length str < 2 ^ 32
    → ptr ≡ length stored
    → length junk ≡ length str
    → (left : List Event) × (store_loop events ulen
          (stored ++ (junk ++ 0 ∷ []))
          ptr
          (length str)
          (str ++ rest)
        ≡ Outcome.done
            (record { ulen = ulen; result = stored ++ (str ++ 0 ∷ []); input = rest })
            left)
unfolding store_loop
store_loop_complete events ulen stored [] [] rest ptr h k b hp hj = (events, refl)
store_loop_complete events ulen stored (u ∷ junk) [] rest ptr h k b hp hj = absurd (omega arith)
store_loop_complete [] ulen stored junk (x ∷ str) rest ptr h k b hp hj = absurd (omega arith)
store_loop_complete (fails e ∷ events) ulen stored junk (x ∷ str) rest ptr h k b hp hj = absurd h
store_loop_complete (transfer m ∷ events) ulen stored junk (x ∷ str) rest ptr h k b hp hj =
    let n = min (suc m) (suc (length str)) in
    let piece = take n (x ∷ str) in
    let after = drop n (x ∷ str) in
    let size : length piece ≡ n = omega (arith, length-take n (x ∷ str)) in
    let (left, done) =
      store_loop_complete events ulen (stored ++ piece) (drop n junk) after rest (ptr + n) h
        (omega (arith, length-drop n (x ∷ str)))
        (omega (arith, length-drop n (x ∷ str), length-append stored piece))
        (omega (arith, length-append stored piece))
        (omega (arith, length-drop n junk, length-drop n (x ∷ str))) in
    let whole : (stored ++ piece) ++ (after ++ 0 ∷ []) ≡ stored ++ (x ∷ (str ++ 0 ∷ [])) =
      append_assoc stored piece (after ++ 0 ∷ [])
      ∙ ap (λ l. stored ++ l)
          (sym (append_assoc piece after (0 ∷ []))
            ∙ ap (λ l. l ++ 0 ∷ []) (take-append-drop n (x ∷ str))) in
    (
      left,
      store_step m events ulen stored junk x str rest ptr b hp hj
          ∙ done
          ∙ ap (λ l. Outcome.done (record { ulen = ulen; result = l; input = rest }) left) whole,
    )

-- The first call takes the header, and the loop starts behind it.
read_header :
    (k : ℕ) (rs : List Event) (malloc : ℕ → List ℕ) (str later : List ℕ)
    → 3 ≤ k
    → 0 < length str
    → length str + 1 < 2 ^ 32
    → ((n : ℕ) → length (malloc n) ≡ n)
    → read_and_store_string (transfer k ∷ rs) malloc ((network_bytes (length str) ++ str) ++ later)
      ≡ store_loop rs
          (length str)
          (take (length str) (malloc (length str + 1)) ++ 0 ∷ [])
          0
          (length str)
          (str ++ later)
unfolding read_and_store_string
read_header k rs malloc str later h pos b hm =
    let header = network_bytes (length str) in
    let four : min (suc k) (min 4 (length (header ++ (str ++ later)))) ≡ 4 =
      omega (arith, length-append header (str ++ later), length-network_bytes (length str)) in
    let some_bytes : (length str == 0) ≡ false = ground arith in
    let size : (length str + 1) % 2 ^ 32 ≡ length str + 1 = mod-eq_of_lt b in
    let memory = malloc (length str + 1) in
    let inside : ltb (length str) (length memory) ≡ true =
      lt→ltb (length str) (length memory) (omega (arith, hm (length str + 1))) in
    rw (
      append_assoc header str later,
      four,
      take-append 4 header (str ++ later) (sym (length-network_bytes (length str))),
      drop-append 4 header (str ++ later) (sym (length-network_bytes (length str))),
      host_number-network_bytes (length str) (omega arith),
      some_bytes,
      size,
      inside,
      drop_all (length str + 1) memory (omega (arith, hm (length str + 1))),
    )

-- Without failing calls, of which the first takes the whole length, the string is stored.
pub read_and_store_string_complete :
    (k : ℕ) (rs : List Event) (malloc : ℕ → List ℕ) (str later : List ℕ)
    → 3 ≤ k
    → OnlyTransfers rs
    → length str ≤ length rs
    → 0 < length str
    → length str + 1 < 2 ^ 32
    → ((n : ℕ) → length (malloc n) ≡ n)
    → (left : List Event) × (read_and_store_string
          (transfer k ∷ rs)
          malloc
          ((network_bytes (length str) ++ str) ++ later)
        ≡ Outcome.done (record { ulen = length str; result = str ++ 0 ∷ []; input = later }) left)
read_and_store_string_complete k rs malloc str later hr only enough pos b hm =
    let junk = take (length str) (malloc (length str + 1)) in
    let size : length junk ≡ length str =
      omega (arith, length-take (length str) (malloc (length str + 1)), hm (length str + 1)) in
    let (left, stored) =
      store_loop_complete rs (length str) [] junk str later 0 only enough (omega arith) refl size in
    (left, read_header k rs malloc str later hr pos b hm ∙ stored)

-- The string that write_string sends is the one that read_and_store_string stores, with a 0 behind
-- it, and the bytes sent later are left to be read: for a string that is not empty and shorter than
-- 2^32 - 1 bytes, if no call fails, there are enough of them, and on both sides the first one moves the
-- whole length.
pub read_and_store_string-write_string :
    (kw kr : ℕ) (ws rs : List Event) (malloc : ℕ → List ℕ) (str later : List ℕ)
    → 3 ≤ kw
    → 3 ≤ kr
    → OnlyTransfers ws
    → OnlyTransfers rs
    → length str ≤ length ws
    → length str ≤ length rs
    → 0 < length str
    → length str + 1 < 2 ^ 32
    → ((n : ℕ) → length (malloc n) ≡ n)
    → (sent : List ℕ) × (ws' : List Event) × (rs' : List Event) × (write_string
          (transfer kw ∷ ws)
          str
          (length str)
          []
        ≡ Outcome.done sent ws')
      × (read_and_store_string (transfer kr ∷ rs) malloc (sent ++ later)
          ≡ Outcome.done (record { ulen = length str; result = str ++ 0 ∷ []; input = later }) rs')
read_and_store_string-write_string kw kr ws rs malloc str later hw hr ow or lw lr pos b hm =
    let (ws', written) = write_string_complete kw ws str [] hw ow lw (omega arith) in
    let (rs', stored) = read_and_store_string_complete kr rs malloc str later hr or lr pos b hm in
    (network_bytes (length str) ++ str, ws', rs', written, stored)

-- What is stored is handed on.
read_string-stored :
    (events left : List Event) (malloc : ℕ → List ℕ) (input str later : List ℕ)
    → 0 < length str
    → read_and_store_string events malloc input
      ≡ Outcome.done (record { ulen = length str; result = str ++ 0 ∷ []; input = later }) left
    → read_string events malloc input
      ≡ Outcome.done (record { ulen = length str; result = str ∷ []; input = later }) left
unfolding read_string
read_string-stored events left malloc input str later pos e =
    let some_bytes : (length str == 0) ≡ false = ground arith in
    ap consume_stored e ∙ rw (some_bytes, take-append (length str) str (0 ∷ []) refl)

-- read_string calls `consume` once, with the string that write_string has sent, and leaves the bytes
-- sent later: for a string that is not empty and shorter than 2^32 - 1 bytes, if no call fails, there are
-- enough of them, and on both sides the first one moves the whole length.
pub read_string-write_string :
    (kw kr : ℕ) (ws rs : List Event) (malloc : ℕ → List ℕ) (str later : List ℕ)
    → 3 ≤ kw
    → 3 ≤ kr
    → OnlyTransfers ws
    → OnlyTransfers rs
    → length str ≤ length ws
    → length str ≤ length rs
    → 0 < length str
    → length str + 1 < 2 ^ 32
    → ((n : ℕ) → length (malloc n) ≡ n)
    → (sent : List ℕ) × (ws' : List Event) × (rs' : List Event) × (write_string
          (transfer kw ∷ ws)
          str
          (length str)
          []
        ≡ Outcome.done sent ws')
      × (read_string (transfer kr ∷ rs) malloc (sent ++ later)
          ≡ Outcome.done (record { ulen = length str; result = str ∷ []; input = later }) rs')
read_string-write_string kw kr ws rs malloc str later hw hr ow or lw lr pos b hm =
    let (sent, ws', rs', written, stored) =
      read_and_store_string-write_string kw kr ws rs malloc str later hw hr ow or lw lr pos b hm in
    (
      sent,
      ws',
      rs',
      written,
      read_string-stored (transfer kr ∷ rs) rs' malloc (sent ++ later) str later pos stored,
    )
