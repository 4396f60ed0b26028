-- ===== src/Bimodal.antt =====
-- ChampSim/branch/bimodal/bimodal.cc and bimodal.h: a table of two-bit counters.
pub mod Laws
mod Tests
use cs230_branch_predictor.Prelude.{ℕ, ◌%◌, Bool, update}
use cs230_branch_predictor.Counter.Unsigned.{maximum, train, above_half}

abbrev pub table_size : ℕ
table_size = 16384

abbrev pub prime : ℕ
prime = 16381

abbrev pub bits : ℕ
bits = 2

-- The state is `bimodal_table`.
unfoldable pub hash : ℕ → ℕ
hash ip = ip % prime

unfoldable pub predict_branch : (ℕ → ℕ) → ℕ → Bool
predict_branch table ip = above_half (maximum bits) (table (hash ip))

unfoldable pub last_branch_result : ℕ → Bool → (ℕ → ℕ) → ℕ → ℕ
last_branch_result ip taken table =
    update table (hash ip) (train (maximum bits) taken (table (hash ip)))
