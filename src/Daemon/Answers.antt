-- ===== src/Daemon/Answers.antt =====
-- A client of the daemon gets the squares of its numbers.
use Prim.Native.Nat.{min}
use mathlib.Core.List.{append_assoc}
use sysprogramming_examples.Prelude.{
  ℕ, suc, ◌^◌, ◌≤◌, ◌<◌, ◌≡◌, ◌==◌, refl, sym, ap, ◌∙◌, true, false, List, [], ◌∷◌, ◌++◌, map, ltb,
  ℤ, negsuc, ◌+◌, ◌*◌, lt→ltb, arith,
}
use sysprogramming_examples.Memory.{length}
use sysprogramming_examples.Memory.Laws.{length-append, take-append, drop-append}
use sysprogramming_examples.Posix.{Event, transfer, fails}
use sysprogramming_examples.TransmissionProtocols.{
  Outcome, network_bytes, read_and_store_string, write_string, write_eot,
}
use sysprogramming_examples.TransmissionProtocols.Bytes.{
  OnlyTransfers, length-network_bytes, host_number-network_bytes,
}
use sysprogramming_examples.TransmissionProtocols.Reading.{read_and_store_string_complete}
use sysprogramming_examples.TransmissionProtocols.Writing.{write_string_complete}
use sysprogramming_examples.Daemon.Square.{
  Texts, Turn, rcv_buf_size, and_then, square, handle_tcp_client,
}

-- A string as it is sent.
abbrev pub frame : List ℕ → List ℕ
frame str = network_bytes (length str) ++ str

abbrev pub frames : List (List ℕ) → List ℕ
frames [] = []
frames (str ∷ strings) = frame str ++ frames strings

abbrev pub magnitude : ℤ → ℕ
magnitude (ℤ.pos n) = n
magnitude (negsuc n) = n + 1

-- The number of a string, without its sign.
abbrev pub size_of_number : Texts → List ℕ → ℕ
size_of_number texts str = magnitude (texts.atoi (str ++ 0 ∷ []))

abbrev pub reply : Texts → List ℕ → List ℕ
reply texts str = texts.format (size_of_number texts str * size_of_number texts str)

square-magnitude : (x : ℤ) → square x ≡ magnitude x * magnitude x
square-magnitude (ℤ.pos n) = refl
square-magnitude (negsuc n) = ap (λ k. k * k) (omega arith)

-- No call fails, the first one moves a whole length, and there are enough of them for the string.
abbrev pub CanMove : List ℕ → List Event → Type 0
CanMove str [] = ⊥
CanMove str (fails e ∷ events) = ⊥
CanMove str (transfer k ∷ events) = (3 ≤ k) × OnlyTransfers events × (length str ≤ length events)

-- A text that is not empty, with a number whose square is an `int` and whose answer fits.
abbrev pub IsRequest : Texts → List ℕ → Type 0
IsRequest texts str =
    (0 < length str)
    × (length str + 1 < 2 ^ 32)
    × (size_of_number texts str * size_of_number texts str < 2 ^ 31)
    × (length (reply texts str) < rcv_buf_size)

-- There is a turn for each request and one for the end of the transmission.
abbrev pub AreServed : Texts → List (List ℕ) → List Turn → Type 0
AreServed texts strings [] = ⊥
AreServed texts [] (turn ∷ turns) = CanMove [] turn.reads × CanMove [] turn.writes
AreServed texts (str ∷ strings) (turn ∷ turns) =
    IsRequest texts str
    × CanMove str turn.reads
    × CanMove (reply texts str) turn.writes
    × AreServed texts strings turns

stored :
    (events : List Event) (malloc : ℕ → List ℕ) (str later : List ℕ)
    → CanMove str events
    → 0 < length str
    → length str + 1 < 2 ^ 32
    → ((n : ℕ) → length (malloc n) ≡ n)
    → (left : List Event) × (read_and_store_string events malloc (frame str ++ later)
        ≡ Outcome.done (record { ulen = length str; result = str ++ 0 ∷ []; input = later }) left)
stored [] malloc str later h pos b hm = absurd h
stored (fails e ∷ events) malloc str later h pos b hm = absurd h
stored (transfer k ∷ events) malloc str later h pos b hm =
    read_and_store_string_complete k events malloc str later h.0 h.1 h.2 pos b hm

written :
    (events : List Event) (str output : List ℕ)
    → CanMove str events
    → length str < 2 ^ 32
    → (left : List Event) × (write_string events str (length str) output
        ≡ Outcome.done (output ++ frame str) left)
written [] str output h b = absurd h
written (fails e ∷ events) str output h b = absurd h
written (transfer k ∷ events) str output h b =
    write_string_complete k events str output h.0 h.1 h.2 b

end_read :
    (events : List Event) (malloc : ℕ → List ℕ) (later : List ℕ)
    → CanMove [] events
    → (left : List Event) × (read_and_store_string events malloc (frame [] ++ later)
        ≡ Outcome.done (record { ulen = 0; result = []; input = later }) left)
unfolding read_and_store_string
end_read [] malloc later h = absurd h
end_read (fails e ∷ events) malloc later h = absurd h
end_read (transfer k ∷ events) malloc later h =
    let header = network_bytes 0 in
    let four : min (suc k) (min 4 (length (header ++ later))) ≡ 4 =
      omega (arith, length-append header later, length-network_bytes 0, h.0) in
    (
      events,
      rw
          (
            append_assoc header [] later,
            four,
            take-append 4 header later (sym (length-network_bytes 0)),
            drop-append 4 header later (sym (length-network_bytes 0)),
            host_number-network_bytes 0 (omega arith),
          )
          refl,
    )

-- One request and its answer.
one_answer :
    (texts : Texts) (malloc : ℕ → List ℕ) (str later output : List ℕ) (turn : Turn)
    (turns : List Turn)
    → IsRequest texts str
    → CanMove str turn.reads
    → CanMove (reply texts str) turn.writes
    → ((n : ℕ) → length (malloc n) ≡ n)
    → handle_tcp_client (turn ∷ turns) texts malloc (frame str ++ later) output
      ≡ handle_tcp_client turns texts malloc later (output ++ frame (reply texts str))
unfolding handle_tcp_client and_then
one_answer texts malloc str later output turn turns request reads writes hm =
    let (left, got) = stored turn.reads malloc str later reads request.0 request.1 hm in
    let (left', gave) =
      written turn.writes (reply texts str) output writes (omega (arith, request)) in
    let some_bytes : (length str == 0) ≡ false = ground (arith, request) in
    let n = size_of_number texts str in
    let small : ltb (n * n) (2 ^ 31) ≡ true = lt→ltb (n * n) 2147483648 request.2 in
    let fits : ltb (length (reply texts str)) rcv_buf_size ≡ true =
      lt→ltb (length (reply texts str)) 32 request.3 in
    rw (got, some_bytes, square-magnitude (texts.atoi (str ++ 0 ∷ [])), small, fits, gave) refl

last_turn :
    (texts : Texts) (malloc : ℕ → List ℕ) (later output : List ℕ) (turn : Turn) (turns : List Turn)
    → CanMove [] turn.reads
    → CanMove [] turn.writes
    → (left : List Event) × (handle_tcp_client
          (turn ∷ turns)
          texts
          malloc
          (frame [] ++ later)
          output
        ≡ Outcome.done (output ++ frame []) left)
unfolding handle_tcp_client and_then write_eot
last_turn texts malloc later output turn turns reads writes =
    let (left, got) = end_read turn.reads malloc later reads in
    let (left', gave) = written turn.writes [] output writes (omega arith) in (left', rw (got) gave)

-- The daemon answers each string that a client sends with the text of its number, without a sign, times
-- itself, in the order of the requests, until the client ends the transmission with an empty string; then it ends
-- the transmission, too, and returns. Each string has less than 2^32 - 1 bytes and is not
-- empty, its number has a square below 2^31, whose text fits into 31 bytes, no call fails, and the first call for each string moves its whole length.
pub handle_tcp_client_lem :
    (texts : Texts) (malloc : ℕ → List ℕ) (strings : List (List ℕ)) (turns : List Turn)
    (later output : List ℕ)
    → ((n : ℕ) → length (malloc n) ≡ n)
    → AreServed texts strings turns
    → (left : List Event) × (handle_tcp_client turns texts malloc
          (frames strings ++ (frame [] ++ later))
          output
        ≡ Outcome.done (output ++ (frames (map (reply texts) strings) ++ frame [])) left)
handle_tcp_client_lem texts malloc strings [] later output hm h = absurd h
handle_tcp_client_lem texts malloc [] (turn ∷ turns) later output hm h =
    last_turn texts malloc later output turn turns h.0 h.1
handle_tcp_client_lem texts malloc (str ∷ strings) (turn ∷ turns) later output hm h =
    let answer = reply texts str in
    let rest = frames strings ++ (frame [] ++ later) in
    let others = frames (map (reply texts) strings) ++ frame [] in
    let (left, all) =
      handle_tcp_client_lem texts malloc strings turns later (output ++ frame answer) hm h.3 in
    (
      left,
      ap (λ i. handle_tcp_client (turn ∷ turns) texts malloc i output)
            (append_assoc (frame str) (frames strings) (frame [] ++ later))
          ∙ one_answer texts malloc str rest output turn turns h.0 h.1 h.2 hm
          ∙ all
          ∙ ap (λ o. Outcome.done o left)
              (append_assoc output (frame answer) others
                ∙ ap (λ o. output ++ o)
                    (sym (
                      append_assoc (frame answer) (frames (map (reply texts) strings))
                        (frame [])))),
    )
