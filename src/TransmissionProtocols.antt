-- ===== src/TransmissionProtocols.antt =====
-- posix/lib/transmission-protocols.c: strings over a socket or pipe, a 4-byte length in network
-- byte order before the bytes. Each call of `read`, `recv` or `write` takes one event. The code
-- keeps their results in a `size_t`, so that -1 is 2^64 - 1 there; lengths and pointers into the
-- buffers are taken modulo 2^64.
pub mod Bytes
pub mod Writing
pub mod Reading
pub mod Fragments
pub mod Failures
pub mod Commands
use Prim.Native.Nat.{min}
use sysprogramming_examples.Prelude.{
  ℕ, zero, suc, ◌+◌, ◌-◌, ◌*◌, ◌/◌, ◌%◌, ◌^◌, Bool, true, false, not, ◌&&◌, List, [], ◌∷◌, ◌++◌,
  leb, ltb, ◌==◌, if◌then◌else◌, size_mod, ℤ, pos, negsuc,
}
use sysprogramming_examples.Prelude.Run.{Run, ok, fault, no_fuel}
use sysprogramming_examples.Memory.{length, take, drop, move_block}
use sysprogramming_examples.Posix.{Event, transfer, fails, read, write}

-- How a function ends: with a result and the events that are left; with the thread or the process
-- ended by an error handler; with a call that has not returned; or with an access outside a buffer.
pub data Outcome {ℓ} (A : Type ℓ) : Type ℓ where
  done : A → List Event → Outcome A
  thread_ended died waiting outside : Outcome A

-- A result of `ssize_t` as the `size_t` that it is assigned to.
abbrev pub to_size : ℤ → ℕ
to_size (pos n) = n
to_size (negsuc n) = size_mod - 1 - n

-- `a - b` and `a + b` of `size_t`, also for moving a pointer.
abbrev pub sub_size : ℕ → ℕ → ℕ
sub_size a b = (a + size_mod - b) % size_mod

abbrev pub add_size : ℕ → ℕ → ℕ
add_size a b = (a + b) % size_mod

-- `htonl`, and the bytes of its result in memory.
pub network_bytes : ℕ → List ℕ
network_bytes n = n / 2 ^ 24 % 256 ∷ n / 2 ^ 16 % 256 ∷ n / 2 ^ 8 % 256 ∷ n % 256 ∷ []

-- `ntohl` of four bytes in memory
pub host_number : List ℕ → ℕ
host_number (a ∷ b ∷ c ∷ d ∷ []) = a * 2 ^ 24 + b * 2 ^ 16 + c * 2 ^ 8 + d
host_number _ = 0

-- `strlen`, of the bytes from a pointer on
pub strlen : List ℕ → ℕ
strlen [] = 0
strlen (b ∷ s) = let rest = suc (strlen s) in if b == 0 then 0 else rest

-- `while (rest_len > 0)` of write_string: `ptr` is an index into `str`.
pub write_loop :
    List Event → (str : List ℕ) → (ptr rest_len : ℕ) → (output : List ℕ) → Outcome (List ℕ)
write_loop events str ptr zero output = done output events
write_loop [] str ptr (suc rest) output = waiting
write_loop (e ∷ events) str ptr (suc rest) output =
    let r = write e (take (suc rest) (drop ptr str)) output in
    let partial_len = to_size r.value in
    let next =
      write_loop events str (add_size ptr partial_len) (sub_size (suc rest) partial_len) r.output in
    if leb (ptr + suc rest) (length str) then next else outside

-- The call that writes the length: its result is not looked at.
pub write_header : List Event → (str : List ℕ) → (len : ℕ) → (output : List ℕ) → Outcome (List ℕ)
write_header [] str len output = waiting
write_header (e ∷ events) str len output =
    write_loop events str 0 len (write e (network_bytes len) output).output

unfoldable pub write_string :
    List Event → (str : List ℕ) → (len : ℕ) → (output : List ℕ) → Outcome (List ℕ)
write_string events str len output =
    let len' = if len == size_mod - 1 then strlen str else len in
    if len' % 2 ^ 32 == len' then write_header events str len' output else thread_ended

unfoldable pub write_eot : List Event → (output : List ℕ) → Outcome (List ℕ)
write_eot events output = write_string events [] 0 output

-- What a reading function returns: its value, what it has stored or consumed, and what is left to
-- be read.
pub record Received {ℓ} (A : Type ℓ) : Type ℓ where
  pub ulen : ℕ
  pub result : A
  pub input : List ℕ

-- `while (rest_len > 0)` of read_and_store_string: `ptr` is an index into `buffer`.
pub store_loop :
    List Event
    → (ulen : ℕ) → (buffer : List ℕ) → (ptr rest_len : ℕ) → (input : List ℕ)
    → Outcome (Received (List ℕ))
store_loop events ulen buffer ptr zero input =
    done (record { ulen = ulen; result = buffer; input = input }) events
store_loop [] ulen buffer ptr (suc rest) input = waiting
store_loop (e ∷ events) ulen buffer ptr (suc rest) input =
    let r = read e (suc rest) input in
    let bytes_received = to_size r.value in
    let next : List ℕ → Outcome (Received (List ℕ)) = λ b.
      store_loop events ulen b (add_size ptr bytes_received) (sub_size (suc rest) bytes_received)
        r.input in
    if bytes_received == 0 then died else elim (move_block buffer ptr r.bytes 0 (length r.bytes)) [
      | ok b ↦ next b
      | fault ↦ outside
      | no_fuel ↦ outside
    ]

-- `buffer` is what `malloc(ulen + 1)` gives, with the 0 put at index `ulen`; `ulen + 1` is a number of
-- 32 bits. In the first branch the function prints a message and returns 0 with `*result` not set.
unfoldable pub read_and_store_string :
    List Event → (malloc : ℕ → List ℕ) → (input : List ℕ) → Outcome (Received (List ℕ))
unfolding host_number
read_and_store_string [] malloc input = waiting
read_and_store_string (e ∷ events) malloc input =
    let r = read e 4 input in
    let ulen = host_number r.bytes in
    let memory = malloc ((ulen + 1) % 2 ^ 32) in
    let buffer = take ulen memory ++ 0 ∷ drop (ulen + 1) memory in
    if not (to_size r.value == 4)
    then done (record { ulen = 0; result = []; input = r.input }) events
    else if ulen == 0
    then done (record { ulen = 0; result = []; input = r.input }) events
    else if ltb ulen (length memory)
    then store_loop events ulen buffer 0 ulen r.input
    else outside

-- `consume` is called with the buffer and its length, unless the length is 0: the call, if any.
pub consume_stored : Outcome (Received (List ℕ)) → Outcome (Received (List (List ℕ)))
consume_stored (done r rest) =
    let calls = if r.ulen == 0 then [] else take r.ulen r.result ∷ [] in
    done (record { ulen = r.ulen; result = calls; input = r.input }) rest
consume_stored thread_ended = thread_ended
consume_stored died = died
consume_stored waiting = waiting
consume_stored outside = outside

unfoldable pub read_string :
    List Event → (malloc : ℕ → List ℕ) → (input : List ℕ) → Outcome (Received (List (List ℕ)))
unfolding consume_stored
read_string events malloc input = consume_stored (read_and_store_string events malloc input)

-- `while (rest_len > 0)` of read_string_fragmentable: `consumed` holds the calls of `consume`. A
-- call with a count of more than the buffer holds reads outside the buffer.
pub fragment_loop :
    List Event
    → (ulen buffer_size rest_len : ℕ) → (consumed : List (List ℕ)) → (input : List ℕ)
    → Outcome (Received (List (List ℕ)))
fragment_loop events ulen buffer_size zero consumed input =
    done (record { ulen = ulen; result = consumed; input = input }) events
fragment_loop [] ulen buffer_size (suc rest) consumed input = waiting
fragment_loop (e ∷ events) ulen buffer_size (suc rest) consumed input =
    let read_len = if ltb buffer_size (suc rest) then buffer_size else suc rest in
    let r = read e read_len input in
    let bytes_received = to_size r.value in
    let next =
      fragment_loop events ulen buffer_size (sub_size (suc rest) bytes_received)
        (consumed ++ r.bytes ∷ []) r.input in
    if bytes_received == 0 then died else if ltb buffer_size bytes_received then outside else next

unfoldable pub read_string_fragmentable :
    List Event → (buffer_size : ℕ) → (input : List ℕ) → Outcome (Received (List (List ℕ)))
unfolding host_number
read_string_fragmentable [] buffer_size input = waiting
read_string_fragmentable (e ∷ events) buffer_size input =
    let r = read e 4 input in
    let ulen = host_number r.bytes in
    if not (to_size r.value == 4)
    then died
    else if ulen == 0
    then done (record { ulen = 0; result = []; input = r.input }) events
    else fragment_loop events ulen buffer_size ulen [] r.input
