-- ===== src/FoldedShiftRegister/Masks.antt =====
-- ChampSim/branch/hashed_perceptron/folded_shift_register.h: the masks and shifts on one value, as
-- arithmetic.
use native.Mathlib.Nat.{
  pow-suc, pow-succ', pow-le-pow_right, div-div-eq-div-mul, one-le-pow, mod-lt, mod-eq_of_lt,
  div-lt_iff_lt-mul, mul-div_cancel, mul-div-mul_right, div-add-mod,
}
use mathlib.Core.Path.{subst}
use cs230_branch_predictor.Prelude.{
  ℕ, zero, suc, ◌+◌, ◌-◌, ◌*◌, ◌/◌, ◌%◌, ◌^◌, ◌≤◌, ◌<◌, ◌≡◌, refl, arith, ◌==◌, leb, bit_and,
  bit_or, ap, ◌∙◌, sym, false, Bool-cases, inl, inr,
}
use cs230_branch_predictor.Prelude.Digits.{bit_and-halves, bit_and-zero, bit_and_mask, bit_or-push}
use cs230_branch_predictor.FoldedShiftRegister.{
  digits, bitmask, value_len, extract_msb, shift_and_apply_lsb,
}

-- A mask with one bit.
bit_and-pow : (k a : ℕ) → bit_and a (2 ^ k) ≡ a / 2 ^ k % 2 * 2 ^ k
bit_and-pow zero a = omega (arith, bit_and-halves a 1, bit_and-zero (a / 2))
bit_and-pow (suc k) a =
    let q = a / 2 / 2 ^ k % 2 in
    let quotient : a / 2 ^ suc k % 2 ≡ q =
      ap (λ (x : ℕ). x % 2)
        (ap (λ (m : ℕ). a / m) (pow-succ' 2 k) ∙ sym (div-div-eq-div-mul a 2 (2 ^ k))) in
    let half : 2 ^ suc k / 2 ≡ 2 ^ k = omega (arith, pow-suc 2 k) in
    rw quotient (
      omega (
        arith,
        bit_and-halves a (2 ^ suc k),
        ap (bit_and (a / 2)) half,
        bit_and-pow k (a / 2),
        pow-suc 2 k,
        ap (λ (m : ℕ). q * m) (pow-suc 2 k),
      ))

pub bitmask_lem : (n : ℕ) → n ≤ 64 → bitmask n 0 ≡ 2 ^ n - 1
unfolding bitmask
bitmask_lem n h = elim (Bool-cases (n == 64)) [
  | inl e ↦ let e' : n ≡ 64 = ground arith in rw e' refl
  | inr ne ↦
      let small : leb 64 (n - 0) ≡ false = ground arith in
      let same : n - 0 ≡ n = omega arith in
      let below : 2 ^ n ≤ 2 ^ 64 = pow-le-pow_right {n = 2} (omega arith) h in
      rw (small, same) (omega (arith, one-le-pow n 2 (omega arith)))
]

top_bit : (k x : ℕ) → x < 2 ^ suc k → bit_and x (2 ^ k) / 2 ^ k ≡ x * 2 / 2 ^ suc k
top_bit k x h =
    let p : 0 < 2 ^ k = one-le-pow k 2 (omega arith) in
    let bit : x / 2 ^ k % 2 ≡ x / 2 ^ k =
      mod-eq_of_lt ((div-lt_iff_lt-mul p).1 (omega (arith, pow-suc 2 k))) in
    rw (bit_and-pow k x, mul-div_cancel _ p, bit, pow-suc)
      (sym (mul-div-mul_right x (2 ^ k) (omega arith)))

low_or : (x lsb : ℕ) → lsb < 2 → bit_or (x * 2 % 2 ^ 64) lsb ≡ x * 2 % 2 ^ 64 + lsb
low_or x lsb h =
    let half : x * 2 % 2 ^ 64 ≡ x % 2 ^ 63 * 2 = omega arith in
    rw half (bit_or-push (x % 2 ^ 63) lsb h)

low_shift :
    (v x lsb : ℕ)
    → v ≤ 64
    → x < 2 ^ v
    → lsb < 2
    → (x * 2 % 2 ^ 64 + lsb) % 2 ^ v ≡ (x * 2 + lsb) % 2 ^ v
low_shift v x lsb le h l = elim (Bool-cases (v == 64)) [
  | inl e ↦ let e' : v ≡ 64 = ground arith in rw e' (omega arith)
  | inr ne ↦
      let below : 2 ^ suc v ≤ 2 ^ 64 =
        pow-le-pow_right {n = 2} (omega arith) {j = 64} (ground arith) in
      let same : x * 2 % 2 ^ 64 ≡ x * 2 = mod-eq_of_lt (omega (arith, pow-suc 2 v)) in rw same refl
]

-- The masks and shifts on one value, as arithmetic.
module _ (word_len : ℕ) (pos : 1 ≤ word_len) (fits : word_len ≤ digits) where
  pub value_len_bounds : (1 ≤ value_len word_len) × (value_len word_len ≤ 64)
  value_len_bounds = omega (arith, div-add-mod 64 word_len, mod-lt 64 {m = word_len} pos)

  pub extract_lem :
      (x : ℕ) → x < 2 ^ value_len word_len → extract_msb word_len x ≡ x * 2 / 2 ^ value_len word_len
  unfolding extract_msb
  extract_lem x h =
      let top : value_len word_len ≡ suc (value_len word_len - 1) =
        omega (arith, value_len_bounds) in
      let below : x < 2 ^ suc (value_len word_len - 1) = subst (λ v. x < 2 ^ v) top h in
      top_bit (value_len word_len - 1) x below ∙ ap (λ v. x * 2 / 2 ^ v) (sym top)

  pub shift_lem :
      (x lsb : ℕ)
      → x < 2 ^ value_len word_len
      → lsb < 2
      → shift_and_apply_lsb word_len x lsb ≡ (x * 2 + lsb) % 2 ^ value_len word_len
  unfolding shift_and_apply_lsb
  shift_lem x lsb h l =
      rw
        (
          low_or x lsb l,
          bitmask_lem (value_len word_len) value_len_bounds.1,
          bit_and_mask (value_len word_len) (x * 2 % 2 ^ 64 + lsb),
        )
        (low_shift (value_len word_len) x lsb value_len_bounds.1 h l)
