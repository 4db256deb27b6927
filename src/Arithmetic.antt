-- ===== src/Arithmetic.antt =====
-- posix/c/arithmetic.c: 64-bit addition and subtraction with carry, where the carry is found from
-- the highest bits, multiplication to 128 bits and division of 128 bits. A `uint64` is a number
-- below 2^64, a `uint128` one below 2^128, a flag of type `int` or `uint8` is 0 or 1.
pub mod Laws
pub mod Chains
use Prim.Native.Nat.{bit_and, bit_or}
use sysprogramming_examples.Prelude.{
  ℕ, ◌+◌, ◌-◌, ◌*◌, ◌/◌, ◌%◌, ◌^◌, leb, ltb, ◌==◌, not, Bool, if◌then◌else◌,
}

pub record UnsignedResultWithCarry : Type 0 where
  pub value : ℕ
  pub carry : ℕ

pub record UnsignedDivxResult : Type 0 where
  pub quotient : ℕ
  pub remainder : ℕ
  pub overflow : ℕ

-- CHECK_HIGHEST_BIT: the value is negative as a `sint64`.
abbrev pub check_highest_bit : ℕ → ℕ
check_highest_bit x = if leb (2 ^ 63) x then 1 else 0

-- `&` and `|` of two flags
abbrev pub flag_and : ℕ → ℕ → ℕ
flag_and x y = if x == 0 then 0 else y

abbrev pub flag_or : ℕ → ℕ → ℕ
flag_or x y = if x == 0 then y else 1

unfoldable pub adc : (x y carry : ℕ) → UnsignedResultWithCarry
adc x y carry =
    let z = (x + y + carry) % 2 ^ 64 in
    let xh = check_highest_bit x in
    let yh = check_highest_bit y in
    let zh = check_highest_bit z in
    record { value = z; carry = if zh == 0 then flag_or xh yh else flag_and xh yh }

unfoldable pub add : (x y : ℕ) → UnsignedResultWithCarry
add x y = adc x y 0

unfoldable pub adc_sx : (rx : UnsignedResultWithCarry) (y : ℕ) → UnsignedResultWithCarry
adc_sx rx y = adc rx.value y rx.carry

unfoldable pub adc_sy : (x : ℕ) (ry : UnsignedResultWithCarry) → UnsignedResultWithCarry
adc_sy x ry = adc x ry.value ry.carry

unfoldable pub sbb : (x y carry : ℕ) → UnsignedResultWithCarry
sbb x y carry =
    let z = (x + 2 * 2 ^ 64 - y - carry) % 2 ^ 64 in
    let xh = check_highest_bit x in
    let yh = check_highest_bit y in
    let zh = check_highest_bit z in
    record { value = z; carry = if xh == 0 then flag_or yh zh else flag_and yh zh }

unfoldable pub sub : (x y : ℕ) → UnsignedResultWithCarry
sub x y = sbb x y 0

unfoldable pub lower : ℕ → ℕ
lower x = x % 2 ^ 64

unfoldable pub upper : ℕ → ℕ
upper x = (x / 2 ^ 64) % 2 ^ 64

unfoldable pub mul : (x y : ℕ) → ℕ
mul x y = (x * y) % 2 ^ 128

-- Division by zero is a trap in C; here `y` is not zero.
unfoldable pub divx : (x y : ℕ) → UnsignedDivxResult
divx x y =
    let q = x / y in
    let r = (x % y) % 2 ^ 64 in
    let ql = lower q in
    let qu = upper q in record { quotient = ql; remainder = r; overflow = if qu == 0 then 0 else 1 }

-- What `short_add_test` prints for one x, y and carry: the carry as the 17th bit of the sum of two
-- 16-bit numbers, and as computed from the highest bits.
pub record ShortTest : Type 0 where
  pub cb : ℕ
  pub cc : ℕ

abbrev short_bit : ℕ → ℕ
short_bit x = if x / 2 ^ 15 % 2 == 0 then 0 else 1

abbrev flag_not : ℕ → ℕ
flag_not x = if x == 0 then 1 else 0

unfoldable pub short_add_case : (x y carry : ℕ) → ShortTest
short_add_case x y carry =
    let zz = x + y + carry in
    let z = (x + y + carry) % 2 ^ 16 in
    let cx = short_bit x in
    let cy = short_bit y in
    let cz = short_bit z in
    record {
      cb = if zz / 2 ^ 16 % 2 == 0 then 0 else 1;
      cc =
          flag_or (flag_or (flag_and cx (flag_not cz)) (flag_and cy (flag_not cz)))
            (flag_and (flag_and cx cy) cz);
    }

-- What `short_sub_test` prints: whether the difference is negative, and the computed borrow.
unfoldable pub short_sub_case : (x y carry : ℕ) → ShortTest
short_sub_case x y carry =
    let z = (x + 2 * 2 ^ 16 - y - carry) % 2 ^ 16 in
    let cx = short_bit x in
    let cy = short_bit y in
    let cz = short_bit z in
    record {
      cb = if ltb x (y + carry) then 1 else 0;
      cc = flag_or (flag_and (flag_or cy cz) (flag_not cx)) (flag_and (flag_and cx cy) cz);
    }
