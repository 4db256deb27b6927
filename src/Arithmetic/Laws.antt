-- ===== src/Arithmetic/Laws.antt =====
-- The carries found from the highest bits are those of the exact sums and differences.
use native.Mathlib.Decide.{dec_lt}
use sysprogramming_examples.Prelude.{ℕ, ◌+◌, ◌-◌, ◌*◌, ◌/◌, ◌%◌, ◌^◌, ◌≤◌, ◌<◌, ◌≡◌, ◌↔◌, arith}
use native.Mathlib.Nat.{div-add-mod, div-add-mod', mod-lt}
use sysprogramming_examples.Arithmetic.{
  adc, sbb, lower, upper, mul, divx, short_add_case, short_sub_case,
}

-- For two `uint64` and a carry of 0 or 1, `adc` gives the exact sum: the value is below 2^64, the
-- carry is 0 or 1, and carry * 2^64 + value is x + y + carry.
pub adc_exact :
    (x y carry : ℕ)
    → x < 2 ^ 64
    → y < 2 ^ 64
    → carry ≤ 1
    → ((adc x y carry).carry * 2 ^ 64 + (adc x y carry).value ≡ x + y + carry)
      × ((adc x y carry).value < 2 ^ 64)
      × ((adc x y carry).carry ≤ 1)
unfolding adc
adc_exact x y carry hx hy hc = ground arith

-- For two `uint64` and a borrow of 0 or 1, `sbb` gives the exact difference: the value is below
-- 2^64, the borrow is 0 or 1, and value + y + carry is x + borrow * 2^64.
pub sbb_exact :
    (x y carry : ℕ)
    → x < 2 ^ 64
    → y < 2 ^ 64
    → carry ≤ 1
    → ((sbb x y carry).value + y + carry ≡ x + (sbb x y carry).carry * 2 ^ 64)
      × ((sbb x y carry).value < 2 ^ 64)
      × ((sbb x y carry).carry ≤ 1)
unfolding sbb
sbb_exact x y carry hx hy hc = ground arith

-- Subtracting what was added gives the first number back, and the borrow is the carry of the sum.
pub sbb-adc :
    (x y carry : ℕ)
    → x < 2 ^ 64
    → y < 2 ^ 64
    → carry ≤ 1
    → ((sbb (adc x y carry).value y carry).value ≡ x)
      × ((sbb (adc x y carry).value y carry).carry ≡ (adc x y carry).carry)
sbb-adc x y carry hx hy hc =
    let a = adc_exact x y carry hx hy hc in
    let s = sbb_exact (adc x y carry).value y carry a.1 hy hc in (omega arith, omega arith)

mul_le : (a b c : ℕ) → a ≤ b → a * c ≤ b * c
mul_le a b c h = grind arith

product_lt : (x y : ℕ) → x < 2 ^ 64 → y < 2 ^ 64 → x * y < 2 ^ 128
product_lt x y hx hy = omega (arith, mul_le x (2 ^ 64 - 1) y (omega arith))

-- The two halves of a product of two `uint64` make up the product: nothing is lost.
pub mul_exact :
    (x y : ℕ) → x < 2 ^ 64 → y < 2 ^ 64 → upper (mul x y) * 2 ^ 64 + lower (mul x y) ≡ x * y
unfolding upper lower mul
mul_exact x y hx hy = omega (arith, product_lt x y hx hy)

quotient_le : (x y : ℕ) → 0 < y → x / y ≤ x
quotient_le x y h = omega (arith, div-add-mod x y, mul_le 1 y (x / y) h)

-- The quotient fits 64 bits exactly if the dividend is below 2^64 times the divisor.
quotient_fits : (x y : ℕ) → 0 < y → (x / y < 2 ^ 64) ↔ (x < 2 ^ 64 * y)
quotient_fits x y h = (
  λ p. omega (arith, div-add-mod x y, mod-lt x h, mul_le (x / y) (2 ^ 64 - 1) y (omega arith)),
  λ p. elim (dec_lt (x / y) (2 ^ 64)) [
    | yes q ↦ q
    | no q ↦ absurd (omega (arith, div-add-mod x y, mul_le (2 ^ 64) (x / y) y (omega arith)))
  ],
)

-- The flag of `divx`, from the upper half of the quotient.
overflow_clear : (x y : ℕ) → x / y < 2 ^ 128 → ((divx x y).overflow ≡ 0) ↔ (x / y < 2 ^ 64)
unfolding divx upper
overflow_clear x y h = (λ p. ground arith, λ p. ground arith)

-- Division by a `uint64` that is not zero, if the overflow flag is clear: quotient times divisor plus
-- remainder is the dividend, and the remainder is less than the divisor.
pub divx_exact :
    (x y : ℕ)
    → x < 2 ^ 128
    → 0 < y
    → y < 2 ^ 64
    → (divx x y).overflow ≡ 0
    → ((divx x y).quotient * y + (divx x y).remainder ≡ x) × ((divx x y).remainder < y)
unfolding divx lower
divx_exact x y hx h0 hy e =
    let clear = overflow_clear x y (omega (arith, quotient_le x y h0)) in
    let small : (x % y) % 2 ^ 64 ≡ x % y = omega (arith, mod-lt x h0) in
    let exact : (x / y) % 2 ^ 64 ≡ x / y = omega (arith, clear.0 e) in
    (rw (small, exact) (div-add-mod' x y), rw small (mod-lt x h0))

-- The overflow flag of a division by a `uint64` that is not zero is clear exactly if the quotient of
-- the two numbers fits 64 bits, which is if the dividend is below 2^64 times the divisor.
pub divx_overflow : (x y : ℕ) → x < 2 ^ 128 → 0 < y → ((divx x y).overflow ≡ 0) ↔ (x < 2 ^ 64 * y)
divx_overflow x y hx h0 =
    let fits = quotient_fits x y h0 in
    let clear = overflow_clear x y (omega (arith, quotient_le x y h0)) in
    (λ e. fits.0 (clear.0 e), λ p. clear.1 (fits.1 p))

-- The two ways of finding the carry that `short_add_test` compares agree on all 16-bit numbers.
pub short_add_agrees :
    (x y carry : ℕ)
    → x < 2 ^ 16
    → y < 2 ^ 16
    → carry ≤ 1
    → (short_add_case x y carry).cc ≡ (short_add_case x y carry).cb
unfolding short_add_case
short_add_agrees x y carry hx hy hc = ground arith

-- The two ways of finding the borrow that `short_sub_test` compares agree on all 16-bit numbers.
pub short_sub_agrees :
    (x y carry : ℕ)
    → x < 2 ^ 16
    → y < 2 ^ 16
    → carry ≤ 1
    → (short_sub_case x y carry).cc ≡ (short_sub_case x y carry).cb
unfolding short_sub_case
short_sub_agrees x y carry hx hy hc = ground arith
