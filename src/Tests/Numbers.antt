-- ===== src/Tests/Numbers.antt =====
-- Arithmetic with carry at the ends of the range.
use sysprogramming_examples.Prelude.{ℕ, ◌+◌, ◌*◌, ◌^◌, ◌≤◌, ◌<◌, ◌≡◌, refl, arith}
use sysprogramming_examples.Arithmetic.{UnsignedResultWithCarry, adc, sbb, upper, divx}
use sysprogramming_examples.Arithmetic.Laws.{adc_exact, sbb_exact, divx_exact}

abbrev top : ℕ
top = 18446744073709551615

abbrev with_carry : UnsignedResultWithCarry
with_carry = record { value = top; carry = 1 }

adc-top : adc top top 1 ≡ record { value = top; carry = 1 }
unfolding adc
adc-top = refl

adc_exact_example :
    ((adc top 1 1).carry * 2 ^ 64 + (adc top 1 1).value ≡ top + 1 + 1)
    × ((adc top 1 1).value < 2 ^ 64)
    × ((adc top 1 1).carry ≤ 1)
adc_exact_example = adc_exact top 1 1 (omega arith) (omega arith) (omega arith)

sbb_exact_example :
    ((sbb 3 top 1).value + top + 1 ≡ 3 + (sbb 3 top 1).carry * 2 ^ 64)
    × ((sbb 3 top 1).value < 2 ^ 64)
    × ((sbb 3 top 1).carry ≤ 1)
sbb_exact_example = sbb_exact 3 top 1 (omega arith) (omega arith) (omega arith)

no_overflow : (divx 100 7).overflow ≡ 0
unfolding divx upper
no_overflow = refl

divx_exact_example :
    ((divx 100 7).quotient * 7 + (divx 100 7).remainder ≡ 100) × ((divx 100 7).remainder < 7)
divx_exact_example = divx_exact 100 7 (omega arith) (omega arith) (omega arith) no_overflow
