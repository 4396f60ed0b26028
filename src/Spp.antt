-- ===== src/Spp.antt =====
-- ChampSim/prefetcher/spp_dev/spp_dev.h and spp_dev.cc: the signature path prefetcher. The switches
-- LOOKAHEAD_ON, FILTER_ON, GHR_ON and SPP_SANITY_CHECK are on and SPP_DEBUG_PRINT is off, as in the
-- source. An assertion that fails is `none`.
pub mod GlobalRegister
pub mod SignatureTable
pub mod PatternTable
pub mod Filter
pub mod Operate
pub mod Ranking
mod Tests
use cs230_branch_predictor.Prelude.{ℕ, ◌+◌, ◌*◌, ◌/◌, ◌%◌, ◌^◌, ◌-◌, bit_and, bit_xor}
use cs230_branch_predictor.Prelude.Int.{ℤ, pos, negsuc}

abbrev pub st_way : ℕ
st_way = 256

abbrev pub st_tag_bit : ℕ
st_tag_bit = 16

abbrev pub sig_shift : ℕ
sig_shift = 3

abbrev pub sig_mask : ℕ
sig_mask = 2 ^ 12 - 1

abbrev pub sig_delta_bit : ℕ
sig_delta_bit = 7

abbrev pub pt_set : ℕ
pt_set = 512

abbrev pub pt_way : ℕ
pt_way = 4

abbrev pub c_sig_max : ℕ
c_sig_max = 2 ^ 4 - 1

abbrev pub quotient_bit : ℕ
quotient_bit = 10

abbrev pub remainder_bit : ℕ
remainder_bit = 6

abbrev pub fill_threshold : ℕ
fill_threshold = 90

abbrev pub pf_threshold : ℕ
pf_threshold = 25

abbrev pub global_counter_max : ℕ
global_counter_max = 2 ^ 10 - 1

abbrev pub max_ghr_entry : ℕ
max_ghr_entry = 8

-- `key += key << n` and `key ^= key >> n` on 64 bits.
abbrev pub add_shifted : ℕ → ℕ → ℕ
add_shifted n key = (key + key * 2 ^ n) % 2 ^ 64

abbrev pub xor_shifted : ℕ → ℕ → ℕ
xor_shifted n key = bit_xor key (key / 2 ^ n)

unfoldable pub get_hash : ℕ → ℕ
get_hash key =
    let mixed = xor_shifted 12 (
      add_shifted 7 (
        xor_shifted 2 (
          add_shifted 10 (xor_shifted 9 (add_shifted 4 (xor_shifted 22 (add_shifted 12 key))))))) in
    mixed / 2 ^ 3 * 2654435761 % 2 ^ 64

-- The 7-bit sign and magnitude of a delta.
abbrev pub sig_delta : ℤ → ℕ
sig_delta (pos n) = n
sig_delta (negsuc n) = n + 1 + 2 ^ (sig_delta_bit - 1)

-- `((sig << SIG_SHIFT) ^ sig_delta) & SIG_MASK`
abbrev pub next_sig : ℕ → ℤ → ℕ
next_sig sig delta = bit_and (bit_xor (sig * 2 ^ sig_shift) (sig_delta delta)) sig_mask
