-- ===== src/Daemon/Square.antt =====
-- posix/daemon/daemon.c: what the daemon does with a client. Each turn of its loop has the events of
-- its calls for reading and for writing. An overflow of `int` and a text that does not fit into
-- `square_buffer` are undefined, like an access outside a buffer.
use sysprogramming_examples.Prelude.{
  ℕ, suc, ◌*◌, ◌^◌, ◌==◌, ◌&&◌, List, [], ◌∷◌, ltb, if◌then◌else◌, ℤ, pos, negsuc,
}
use sysprogramming_examples.Memory.{length}
use sysprogramming_examples.Posix.{Event}
use sysprogramming_examples.TransmissionProtocols.{
  Outcome, done, thread_ended, died, waiting, outside, Received, read_and_store_string,
  write_string, write_eot,
}

-- `RCVBUFSIZE`
abbrev pub rcv_buf_size : ℕ
rcv_buf_size = 32

-- `atoi`, and `sprintf` with "%12d".
pub record Texts : Type 0 where
  pub atoi : List ℕ → ℤ
  pub format : ℕ → List ℕ

-- The events for the calls in one turn of the loop.
pub record Turn : Type 0 where
  pub reads : List Event
  pub writes : List Event

unfoldable pub and_then {ℓ κ} : {A : Type ℓ} {B : Type κ} → Outcome A → (A → Outcome B) → Outcome B
and_then (done value left) rest = rest value
and_then thread_ended rest = thread_ended
and_then died rest = died
and_then waiting rest = waiting
and_then outside rest = outside

-- `x*x`
abbrev pub square : ℤ → ℕ
square (pos n) = n * n
square (negsuc n) = suc n * suc n

-- `while (TRUE)`, and what follows it: the bytes that the client gets.
unfoldable pub handle_tcp_client :
    List Turn → Texts → (malloc : ℕ → List ℕ) → (input output : List ℕ) → Outcome (List ℕ)
handle_tcp_client [] texts malloc input output = waiting
handle_tcp_client (turn ∷ turns) texts malloc input output =
    let answer : Received (List ℕ) → Outcome (List ℕ) = λ r.
      let y = square (texts.atoi r.result) in
      let square_buffer = texts.format y in
      let sent =
        and_then (write_string turn.writes square_buffer (length square_buffer) output)
          (λ output'. handle_tcp_client turns texts malloc r.input output') in
      if ltb y (2 ^ 31) && ltb (length square_buffer) rcv_buf_size then sent else outside in
    and_then (read_and_store_string turn.reads malloc input)
      (λ r. if r.ulen == 0 then write_eot turn.writes output else answer r)
