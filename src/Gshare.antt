-- ===== src/Gshare.antt =====
-- ChampSim/branch/gshare/gshare.cc and gshare.h: two-bit counters selected by the address and the
-- global history. `branch_history_vector`, a bitset of 14 bits, is its value `to_ullong()`.
pub mod Laws
mod Tests
use cs230_branch_predictor.Prelude.{
  ℕ, ◌+◌, ◌-◌, ◌*◌, ◌/◌, ◌%◌, ◌^◌, Bool, leb, update, bit_xor, if◌then◌else◌,
}
use cs230_branch_predictor.Counter.Unsigned.{maximum, train}

abbrev pub global_history_length : ℕ
global_history_length = 14

abbrev pub counter_bits : ℕ
counter_bits = 2

abbrev pub gs_history_table_size : ℕ
gs_history_table_size = 16384

abbrev pub log2_history_table_size : ℕ
log2_history_table_size = 14

-- `ip.slice<upper, lower>()`, as a number.
abbrev pub slice : ℕ → ℕ → ℕ → ℕ
slice upper lower ip = ip / 2 ^ lower % 2 ^ (upper - lower)

pub record Gshare : Type 0 where
  pub branch_history_vector : ℕ
  pub gs_history_table : ℕ → ℕ

unfoldable pub gs_table_hash : ℕ → ℕ → ℕ
gs_table_hash ip bh_vector =
    let len = global_history_length in
    let size = log2_history_table_size in
    bit_xor (bit_xor (bit_xor bh_vector (slice size 0 ip)) (slice (size + len) len ip))
      (slice (size + 2 * len) (2 * len) ip)
    % gs_history_table_size

unfoldable pub predict_branch : Gshare → ℕ → Bool
predict_branch s ip =
    leb (maximum counter_bits / 2) (s.gs_history_table (gs_table_hash ip s.branch_history_vector))

-- `<<= 1` drops the highest bit, then bit 0 is set.
unfoldable pub last_branch_result : ℕ → Bool → Gshare → Gshare
last_branch_result ip taken s =
    let gs_hash = gs_table_hash ip s.branch_history_vector in
    record {
      gs_history_table =
          update s.gs_history_table gs_hash
            (train (maximum counter_bits) taken (s.gs_history_table gs_hash));
      branch_history_vector =
          s.branch_history_vector * 2 % 2 ^ global_history_length + (if taken then 1 else 0);
    }
