-- ===== src/Bits.antt =====
-- ChampSim/inc/msl/bits.h: the logarithm, the test for a power of two, and the power. A loop of a type
-- of w bits makes at most w rounds. The power is over numbers that are not negative, and for results
-- that do not overflow.
pub mod Laws
mod Tests
use cs230_branch_predictor.Prelude.{
  ℕ, zero, suc, ◌+◌, ◌*◌, ◌/◌, ◌%◌, ◌^◌, Bool, ◌==◌, if◌then◌else◌,
}

-- `while (n >>= 1) { ++result; }`
abbrev pub lg2_loop : ℕ → ℕ → ℕ → ℕ
lg2_loop zero n result = result
lg2_loop (suc rounds) n result =
    let rest = lg2_loop rounds (n / 2) (result + 1) in if n / 2 == 0 then result else rest

unfoldable pub lg2 : ℕ → ℕ → ℕ
lg2 w n = lg2_loop w n 0

unfoldable pub is_power_of_2 : ℕ → ℕ → Bool
is_power_of_2 w n = n == 2 ^ lg2 w n

abbrev pub ipow_loop : ℕ → ℕ → ℕ → ℕ → ℕ
ipow_loop zero base exp result = result
ipow_loop (suc rounds) base exp result =
    let result' = if exp % 2 == 1 then result * base else result in
    let rest = ipow_loop rounds (base * base) (exp / 2) result' in
    if exp / 2 == 0 then result' else rest

-- `unsigned exp` has w bits.
unfoldable pub ipow : ℕ → ℕ → ℕ → ℕ
ipow w base exp = ipow_loop w base exp 1
