-- ===== src/Arithmetic/Chains.antt =====
-- Numbers of several words: a chain of additions with carry, as `adc_sx` and `adc_sy` are for.
use sysprogramming_examples.Prelude.{ℕ, ◌+◌, ◌*◌, ◌^◌, ◌≤◌, ◌<◌, ◌≡◌, arith}
use sysprogramming_examples.Arithmetic.{UnsignedResultWithCarry, adc, add, adc_sx, adc_sy}
use sysprogramming_examples.Arithmetic.Laws.{adc_exact}

-- Two 128-bit numbers, given by their halves, are added exactly by `add` of the lower halves and
-- `adc` of the upper halves with the carry: the three parts of the result make up the sum.
pub add_two_words :
    (xl xh yl yh : ℕ)
    → xl < 2 ^ 64
    → xh < 2 ^ 64
    → yl < 2 ^ 64
    → yh < 2 ^ 64
    → (adc xh yh (add xl yl).carry).carry * 2 ^ 128
        + (adc xh yh (add xl yl).carry).value * 2 ^ 64
        + (add xl yl).value
      ≡ (xh * 2 ^ 64 + xl) + (yh * 2 ^ 64 + yl)
unfolding add
add_two_words xl xh yl yh h1 h2 h3 h4 =
    let low = adc_exact xl yl 0 h1 h3 (omega arith) in
    let high = adc_exact xh yh (adc xl yl 0).carry h2 h4 low.2 in omega arith

-- A result with its carry enters the next addition in either place alike.
pub adc_sx-adc_sy :
    (r : UnsignedResultWithCarry) (x : ℕ)
    → r.value < 2 ^ 64
    → x < 2 ^ 64
    → r.carry ≤ 1
    → adc_sx r x ≡ adc_sy x r
unfolding adc_sx adc_sy
adc_sx-adc_sy r x hr hx hc =
    let a = adc_exact r.value x r.carry hr hx hc in
    let b = adc_exact x r.value r.carry hx hr hc in ground arith
