-- ===== src/TransmissionProtocols/Bytes.antt =====
-- Lengths in network byte order, and the arithmetic of transfer sizes.
use sysprogramming_examples.Prelude.{ℕ, ◌+◌, ◌-◌, ◌^◌, ◌≤◌, ◌<◌, ◌≡◌, refl, List, [], ◌∷◌, arith}
use sysprogramming_examples.Memory.{length}
use sysprogramming_examples.Posix.{Event, transfer, fails}
use sysprogramming_examples.TransmissionProtocols.{network_bytes, host_number, sub_size, add_size}

-- A length of 32 bits survives the conversion to network byte order and back.
pub host_number-network_bytes : (n : ℕ) → n < 2 ^ 32 → host_number (network_bytes n) ≡ n
unfolding host_number network_bytes
host_number-network_bytes n h = omega arith

pub length-network_bytes : (n : ℕ) → length (network_bytes n) ≡ 4
unfolding network_bytes
length-network_bytes n = refl

pub add_size_exact : (a b : ℕ) → a + b < 2 ^ 64 → add_size a b ≡ a + b
add_size_exact a b h = omega arith

pub sub_size_exact : (a b : ℕ) → b ≤ a → a < 2 ^ 64 → sub_size a b ≡ a - b
sub_size_exact a b h k = omega arith

-- No call fails.
abbrev pub OnlyTransfers : List Event → Type 0
OnlyTransfers [] = Unit
OnlyTransfers (transfer k ∷ es) = OnlyTransfers es
OnlyTransfers (fails e ∷ es) = ⊥
