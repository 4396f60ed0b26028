-- ===== src/Tage/Bounds.antt =====
-- ChampSim/branch/Tage/tage.cc: the hashes stay inside the tables and the tag widths.
use native.Mathlib.Nat.{pow-suc, pow-le-pow_right, one-le-pow, mod-lt, mod-le}
use cs230_branch_predictor.Prelude.{
  ℕ, zero, suc, ◌+◌, ◌-◌, ◌*◌, ◌%◌, ◌^◌, ◌≤◌, ◌<◌, ◌≡◌, arith, Bool, ap,
}
use cs230_branch_predictor.Prelude.Digits.{bit_and_mask, bit_xor-lt}
use cs230_branch_predictor.Tage.{
  Tage, tag_widths, hist_lens, tage_index_bits, num_components, tage_entries,
}
use cs230_branch_predictor.Tage.Hash.{fold_history, get_ghist_hash, tag_hash, index_hash, low_word}

-- The configuration: the widths of the tags and of the indices.
pub tage_index_bits_lem : (i : ℕ) → i < 12 → tage_index_bits i ≡ 10
tage_index_bits_lem i h = ground arith

pub tag_widths_bounds : (i : ℕ) → i < 12 → (7 ≤ tag_widths i) × (tag_widths i ≤ 15)
tag_widths_bounds i h = ground arith

pub pow_grows : (p k : ℕ) → p < k → 2 ^ p < 2 ^ k
pow_grows p k h =
    omega
      (arith, pow-suc 2 p, one-le-pow p 2 (omega arith), pow-le-pow_right {n = 2} (omega arith) h)

pub fold_history-lt :
    (ghist : ℕ → Bool) (out_size rounds i hash : ℕ)
    → 0 < out_size
    → hash < 2 ^ out_size
    → fold_history ghist out_size rounds i hash < 2 ^ out_size
unfolding fold_history
fold_history-lt ghist out_size zero i hash p h = h
fold_history-lt ghist out_size (suc rounds) i hash p h =
    let below : i % out_size < out_size = grind arith in
    let fits =
      bit_xor-lt out_size hash (2 ^ (i % out_size)) h (pow_grows (i % out_size) out_size below) in
    fold_history-lt ghist out_size rounds (i + 1) _ p (ground arith)

pub get_ghist_hash-lt :
    (ghist : ℕ → Bool) (in_size out_size : ℕ)
    → 0 < out_size
    → get_ghist_hash ghist in_size out_size < 2 ^ out_size
unfolding get_ghist_hash
get_ghist_hash-lt ghist in_size out_size p =
    fold_history-lt ghist out_size in_size 0 0 p (one-le-pow out_size 2 (omega arith))

-- Every index is inside its table of 1024 entries, whatever the address and the histories.
pub index_hash-lt :
    (s : Tage) (ip c : ℕ) → 1 ≤ c → c < num_components → index_hash s ip c < tage_entries
unfolding index_hash
index_hash-lt s ip c lo hi =
    rw (tage_index_bits_lem (c - 1) (omega arith), bit_and_mask 10) (omega arith)

narrow-lt : (w x : ℕ) → 0 < w → x < 2 ^ (w - 1) → x * 2 % 2 ^ 32 < 2 ^ w
narrow-lt (suc w) x p h =
    omega (arith, pow-suc 2 w, ap (λ (k : ℕ). 2 ^ k) drop, mod-le (x * 2) (2 ^ 32))
  where
    drop : suc w - 1 ≡ w
    drop = omega arith
narrow-lt zero x p h = elim p [ ]

-- Every tag fits the width of its component.
pub tag_hash-lt :
    (s : Tage) (ip c : ℕ) → 1 ≤ c → c < num_components → tag_hash s ip c < 2 ^ tag_widths (c - 1)
unfolding tag_hash
tag_hash-lt s ip c lo hi =
    let w = tag_widths (c - 1) in
    let bounds = tag_widths_bounds (c - 1) (omega arith) in
    let len = hist_lens (c - 1) in
    bit_xor-lt w _ _ (rw (bit_and_mask w) (mod-lt (low_word ip) (one-le-pow w 2 (omega arith)))) (
      bit_xor-lt w _ _ (get_ghist_hash-lt s.ghist len w (omega arith))
        (narrow-lt w _ (omega arith) (get_ghist_hash-lt s.ghist len (w - 1) (omega arith))))
