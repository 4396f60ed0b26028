-- ===== src/Btb/Indirect.antt =====
-- ChampSim/btb/basic_btb/indirect_predictor.h and indirect_predictor.cc. `conditional_history`, a
-- bitset of 12 bits, is its value `to_ullong()`.
use cs230_branch_predictor.Prelude.{ℕ, ◌+◌, ◌*◌, ◌/◌, ◌%◌, ◌^◌, Bool, true, if◌then◌else◌, bit_xor}
use cs230_branch_predictor.Prelude

abbrev pub size : ℕ
size = 4096

pub record IndirectPredictor : Type 0 where
  pub predictor : ℕ → ℕ
  pub conditional_history : ℕ

abbrev pub start : IndirectPredictor
start = record { predictor = λ i. 0; conditional_history = 0 }

-- `hash % std::size(predictor)`
abbrev pub slot : ℕ → IndirectPredictor → ℕ
slot ip s = bit_xor (ip / 4) s.conditional_history % size

unfoldable pub prediction : ℕ → IndirectPredictor → ℕ × Bool
prediction ip s = (s.predictor (slot ip s), true)

unfoldable pub update_target : ℕ → ℕ → IndirectPredictor → IndirectPredictor
update_target ip branch_target s = record s {
  predictor = Prelude.update s.predictor (slot ip s) branch_target;
}

-- `<<= 1` drops the highest of the 12 bits, then bit 0 is set.
unfoldable pub update_direction : Bool → IndirectPredictor → IndirectPredictor
update_direction taken s = record s {
  conditional_history = s.conditional_history * 2 % 2 ^ 12 + (if taken then 1 else 0);
}
