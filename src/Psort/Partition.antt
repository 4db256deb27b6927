-- ===== src/Psort/Partition.antt =====
-- The segments of psort.c cover the array, and differ in length by one at most.
use native.Mathlib.Nat.{div-add-mod', mod-lt, div-lt_iff_lt-mul, div-le_self, div-one}
use native.Mathlib.Decide.{dec_lt}
use sysprogramming_examples.Prelude.{
  ℕ, zero, suc, ◌+◌, ◌-◌, ◌*◌, ◌/◌, ◌≤◌, ◌<◌, ◌≡◌, refl, ap, false, not, ◌&&◌, List, [], ◌∷◌, some,
  arith, ◌==◌, lt→ltb,
}
use sysprogramming_examples.Prelude.Run.{Returns, returns, Returns-then}
use sysprogramming_examples.Memory.{length}
use sysprogramming_examples.Order.{All}
use sysprogramming_examples.Psort.{SortableData, partition_loop, partition}

-- Each segment begins where the one before ends, the first at `from` and the last ends at `to`.
abbrev pub Covers : (from to : ℕ) → List SortableData → Type 0
Covers from to [] = from ≡ to
Covers from to (s ∷ segments) = (s.base ≡ some from) × Covers (from + s.nmemb) to segments

-- A length between two bounds.
abbrev pub IsBetween : (low high : ℕ) → SortableData → Type 0
IsBetween low high s = (low ≤ s.nmemb) × (s.nmemb ≤ high)

-- What a division into `count` segments of `low` to `high` elements promises.
pub record IsPartition (count from to low high : ℕ) (segments : List SortableData) : Type 0 where
  pub size : length segments ≡ count
  pub covers : Covers from to segments
  pub even : All (IsBetween low high) segments

mul_suc : (a b : ℕ) → a * suc b ≡ a * b + a
mul_suc a b = grind arith

suc_mul : (a b : ℕ) → suc a * b ≡ a * b + b
suc_mul a b = grind arith

suc_pos : (n : ℕ) → 0 < suc n
suc_pos n = omega arith

mul_le : (a b c : ℕ) → a ≤ b → a * c ≤ b * c
mul_le a b c h = grind arith

-- A quotient between two bounds, and what is left for the other segments.
quotient_ge : (low len n : ℕ) → low * suc n ≤ len → low ≤ len / suc n
quotient_ge low len n k = elim (dec_lt (len / suc n) low) [
  | yes q ↦ absurd (omega (arith, (div-lt_iff_lt-mul {k = suc n} (omega arith)).0 q))
  | no q ↦ omega arith
]

quotient_le : (high len n : ℕ) → len ≤ high * suc n → len / suc n ≤ high
quotient_le high len n k =
    let below : len < suc high * suc n = omega (arith, suc_mul high (suc n)) in
    omega (arith, (div-lt_iff_lt-mul {k = suc n} {y = suc high} (omega arith)).1 below)

rest_ge : (low len n : ℕ) → low * suc n ≤ len → low * n ≤ len - len / suc n
rest_ge low len n k = omega (
  arith,
  div-add-mod' len (suc n),
  mul_suc (len / suc n) n,
  mul_le low (len / suc n) n (quotient_ge low len n k),
)

rest_le : (high len n : ℕ) → len ≤ high * suc n → len - len / suc n ≤ high * n
rest_le high len n k = elim (dec_lt (len / suc n) high) [
  | yes q ↦ omega (
    arith,
    div-add-mod' len (suc n),
    mul_suc (len / suc n) n,
    mod-lt len (suc_pos n),
    suc_mul (len / suc n) n,
    mul_le (suc (len / suc n)) high n q,
  )
  | no q ↦ omega (arith, mul_suc high n)
]

-- The assertion that the last segment takes all that is left does not fail.
last_takes_all :
    (rounds i thread_count len : ℕ)
    → i + suc rounds ≡ thread_count
    → ((i == thread_count - 1) && not (len == len / suc rounds)) ≡ false
last_takes_all zero i thread_count len e = ground (arith, div-one len)
last_takes_all (suc rounds) i thread_count len e = ground arith

partition_loop-IsPartition :
    (rounds i thread_count len ptr to low high : ℕ)
    → i + rounds ≡ thread_count
    → ptr + len ≡ to
    → low * rounds ≤ len
    → len ≤ high * rounds
    → Returns
        (IsPartition rounds ptr to low high)
        (partition_loop rounds i thread_count rounds len ptr)
unfolding partition_loop
partition_loop-IsPartition zero i thread_count len ptr to low high e ht hl hh =
    returns (record { size = refl; covers = omega arith; even = tt })
partition_loop-IsPartition (suc rounds) i thread_count len ptr to low high e ht hl hh =
    let q = len / suc rounds in
    let small : q ≤ len = div-le_self len (suc rounds) in
    let last : ((i == thread_count - 1) && not (len == q)) ≡ false =
      last_takes_all rounds i thread_count len e in
    let less : suc rounds - 1 ≡ rounds = omega arith in
    rw (last, less)
      (Returns-then
        (partition_loop-IsPartition rounds (i + 1) thread_count (len - q) (ptr + q) to low high
          (omega arith) (omega arith) (rest_ge low len rounds hl) (rest_le high len rounds hh))
        (λ segments p. returns (record {
          size = ap suc p.size;
          covers = (refl, p.covers);
          even = ((quotient_ge low len rounds hl, quotient_le high len rounds hh), p.even);
        })))

-- psort_r divides `nmemb` elements among one thread or more without failing an assertion: there is a
-- segment for each thread, the segments follow one another from the beginning of the array to its
-- end, and each has at least nmemb / thread_count elements, rounded down, and at most that, rounded up.
pub partition-IsPartition :
    (nmemb thread_count : ℕ)
    → 0 < thread_count
    → Returns
        (IsPartition thread_count 0 nmemb
          (nmemb / thread_count)
          ((nmemb + (thread_count - 1)) / thread_count))
        (partition nmemb thread_count)
unfolding partition
partition-IsPartition nmemb zero h = absurd (omega arith)
partition-IsPartition nmemb (suc n) h = rw (lt→ltb 0 (suc n) (omega arith)) (
    partition_loop-IsPartition (suc n) 0 (suc n) nmemb 0 nmemb (nmemb / suc n)
      ((nmemb + (suc n - 1)) / suc n) (omega arith) (omega arith)
      (omega (arith, div-add-mod' nmemb (suc n)))
      (omega (
        arith,
        div-add-mod' (nmemb + (suc n - 1)) (suc n),
        mod-lt (nmemb + (suc n - 1)) (suc_pos n),
      )))
