-- ===== src/Tage/Hash.antt =====
-- ChampSim/branch/Tage/tage.cc: `get_ghist_hash`, `tagHash` and `indexHash`.
use cs230_branch_predictor.Prelude.{
  ℕ, zero, suc, ◌+◌, ◌-◌, ◌*◌, ◌/◌, ◌%◌, ◌^◌, Bool, bit_and, bit_xor, if◌then◌else◌,
}
use cs230_branch_predictor.Tage.{Tage, tag_widths, hist_lens, tage_index_bits}

-- The loop of `get_ghist_hash` from bit i on, with so many rounds left.
unfoldable pub fold_history : (ℕ → Bool) → ℕ → ℕ → ℕ → ℕ → ℕ
fold_history ghist out_size zero i hash = hash
fold_history ghist out_size (suc rounds) i hash =
    fold_history ghist out_size rounds (i + 1)
      (if ghist i then bit_xor hash (2 ^ (i % out_size)) % 2 ^ 32 else hash)

unfoldable pub get_ghist_hash : (ℕ → Bool) → ℕ → ℕ → ℕ
unfolding fold_history
get_ghist_hash ghist in_size out_size = fold_history ghist out_size in_size 0 0

-- `uint32_t ip_ = ip.to<unsigned long>()`
abbrev pub low_word : ℕ → ℕ
low_word ip = ip % 2 ^ 32

unfoldable pub tag_hash : Tage → ℕ → ℕ → ℕ
tag_hash s ip component =
    let width = tag_widths (component - 1) in
    let len = hist_lens (component - 1) in
    let narrow = get_ghist_hash s.ghist len (width - 1) * 2 % 2 ^ 32 in
    let history = bit_xor (get_ghist_hash s.ghist len width) narrow in
    bit_xor (bit_and (low_word ip) (2 ^ width - 1)) history

unfoldable pub index_hash : Tage → ℕ → ℕ → ℕ
index_hash s ip component =
    let bits = tage_index_bits (component - 1) in
    let history = get_ghist_hash s.ghist (hist_lens (component - 1)) bits in
    let word = low_word ip in
    bit_and (bit_xor (bit_xor (bit_xor word (word / 2 ^ bits)) history) s.phist) (2 ^ bits - 1)
