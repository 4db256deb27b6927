-- ===== src/TransmissionProtocols/Commands.antt =====
-- write_4byte_string and read_4byte_string: a word of up to four bytes, sent as five bytes.
use Prim.Native.Nat.{min}
use sysprogramming_examples.Prelude.{
  ℕ, zero, suc, ◌-◌, ap, ◌≤◌, ◌≡◌, refl, sym, false, List, [], ◌∷◌, ◌++◌, arith, leb, ◌==◌,
  if◌then◌else◌, le→leb,
}
use sysprogramming_examples.Memory.{length, take}
use sysprogramming_examples.Memory.Laws.{
  length-append, length-take, take_all, take-append, drop-append,
}
use sysprogramming_examples.Posix.{Event, transfer, fails, read, write}
use sysprogramming_examples.TransmissionProtocols.{Outcome, done, died, waiting, outside, to_size}

-- `char buff[5] = { '\000' }` after `sprintf(buff, "%s", str)`; `str` are the bytes before its
-- terminating 0.
pub buff : (str : List ℕ) → List ℕ
buff str = take 5 (str ++ 0 ∷ 0 ∷ 0 ∷ 0 ∷ 0 ∷ [])

-- A `str` of more than four bytes is written beyond the end of `buff`.
unfoldable pub write_4byte_string :
    List Event → (str : List ℕ) → (output : List ℕ) → Outcome (List ℕ)
write_4byte_string [] str output = if leb (length str) 4 then waiting else outside
write_4byte_string (e ∷ events) str output =
    let r = write e (buff str) output in
    if leb (length str) 4
    then if to_size r.value == 5 then done r.output events else died
    else outside

-- What is copied to `str`, and what is left to be read.
unfoldable pub read_4byte_string : List Event → (input : List ℕ) → Outcome (List ℕ × List ℕ)
read_4byte_string [] input = waiting
read_4byte_string (e ∷ events) input =
    let r = read e 5 input in if to_size r.value == 5 then done (r.bytes, r.input) events else died

length-buff : (str : List ℕ) → length (buff str) ≡ 5
unfolding buff
length-buff str = omega (
  arith,
  length-take 5 (str ++ 0 ∷ 0 ∷ 0 ∷ 0 ∷ 0 ∷ []),
  length-append str (0 ∷ 0 ∷ 0 ∷ 0 ∷ 0 ∷ []),
)

abbrev pub zeros : ℕ → List ℕ
zeros zero = []
zeros (suc n) = 0 ∷ zeros n

buff-zeros : (str : List ℕ) → length str ≤ 4 → buff str ≡ str ++ zeros (5 - length str)
unfolding buff
buff-zeros [] h = refl
buff-zeros (a ∷ []) h = refl
buff-zeros (a ∷ b ∷ []) h = refl
buff-zeros (a ∷ b ∷ c ∷ []) h = refl
buff-zeros (a ∷ b ∷ c ∷ d ∷ []) h = refl
buff-zeros (a ∷ b ∷ c ∷ d ∷ e ∷ str) h = absurd (omega arith)

-- A word of up to four bytes, written by a call and read by a call that move all five bytes, arrives:
-- what is sent, and what is read of it, is the word followed by zeros up to five bytes, and the bytes
-- sent later are left to be read.
pub read_4byte_string-write_4byte_string :
    (j k : ℕ) (ws rs : List Event) (str later : List ℕ)
    → 4 ≤ j
    → 4 ≤ k
    → length str ≤ 4
    → (sent : List ℕ) × (write_4byte_string (transfer j ∷ ws) str [] ≡ done sent ws)
      × (read_4byte_string (transfer k ∷ rs) (sent ++ later)
          ≡ done (str ++ zeros (5 - length str), later) rs)
unfolding write_4byte_string read_4byte_string
read_4byte_string-write_4byte_string j k ws rs str later hj hk h =
    let size = length-buff str in
    let sent : min (suc j) (length (buff str)) ≡ 5 = omega (arith, size) in
    let received : min (suc k) (min 5 (length (buff str ++ later))) ≡ 5 =
      omega (arith, size, length-append (buff str) later) in
    (
      buff str,
      rw (le→leb (length str) 4 h, sent, take_all 5 (buff str) (omega (arith, size))),
      rw
          (
            received,
            take-append 5 (buff str) later (sym size),
            drop-append 5 (buff str) later (sym size),
          )
          (ap (λ w. done (w, later) rs) (buff-zeros str h)),
    )

-- A call that moves fewer than five bytes, or none because it fails, ends the process on either side.
pub partial_4byte_string :
    (e : Event) (es : List Event) (str input output : List ℕ)
    → length str ≤ 4
    → ((j : ℕ) → e ≡ transfer j → j ≤ 3)
    → (write_4byte_string (e ∷ es) str output ≡ died) × (read_4byte_string (e ∷ es) input ≡ died)
unfolding write_4byte_string read_4byte_string
partial_4byte_string (fails x) es str input output h k = (rw (le→leb (length str) 4 h), refl)
partial_4byte_string (transfer j) es str input output h k =
    let small = k j refl in
    let size = length-buff str in
    let sent : (min (suc j) (length (buff str)) == 5) ≡ false = ground arith in
    let received : (min (suc j) (min 5 (length input)) == 5) ≡ false = ground arith in
    (rw (le→leb (length str) 4 h, sent), rw received)
