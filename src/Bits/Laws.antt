-- ===== src/Bits/Laws.antt =====
-- ChampSim/inc/msl/bits.h: the loops end with the logarithm and the power.
use native.Mathlib.Nat.{pow-suc, pow-zero, one-le-pow, pow-le-pow_right}
use cs230_branch_predictor.Prelude.{
  ℕ, zero, suc, ◌+◌, ◌*◌, ◌/◌, ◌%◌, ◌^◌, ◌≤◌, ◌<◌, ◌≡◌, ◌↔◌, refl, sym, ap, ◌∙◌, arith, true, ◌==◌,
  ltb, if◌then◌else◌, Bool-cases, inl, inr,
}
use cs230_branch_predictor.Bits.{lg2_loop, lg2, is_power_of_2, ipow_loop, ipow}

-- The number is between two powers of two.
abbrev pub IsLog : ℕ → ℕ → Type 0
IsLog n k = (2 ^ k ≤ n) × (n < 2 ^ suc k)

lg2_loop_lem :
    (rounds n result : ℕ)
    → 1 ≤ n
    → n < 2 ^ rounds
    → (k : ℕ) × (lg2_loop rounds n result ≡ result + k) × IsLog n k
lg2_loop_lem zero n result pos small = absurd (omega arith)
lg2_loop_lem (suc rounds) n result pos small = elim (Bool-cases (n / 2 == 0)) [
  | inl last ↦ rw last (0, omega arith, ground arith)
  | inr more ↦
      let (k, e, (low, high)) =
        lg2_loop_lem rounds (n / 2) (result + 1) (ground arith) (omega (arith, pow-suc 2 rounds)) in
      rw more (
        suc k,
        omega (arith, e),
        (omega (arith, low, pow-suc 2 k), omega (arith, high, pow-suc 2 (suc k))),
      )
]

-- The logarithm of a number of w bits that is not 0 is the k with 2^k at most the number and 2^(k+1)
-- above it.
pub lg2-IsLog : (w n : ℕ) → 1 ≤ n → n < 2 ^ w → IsLog n (lg2 w n)
unfolding lg2
lg2-IsLog w n pos small =
    let (k, e, log) = lg2_loop_lem w n 0 pos small in
    let same : lg2_loop w n 0 ≡ k = omega (arith, e) in rw same log

log_unique : (n j k : ℕ) → n ≡ 2 ^ j → IsLog n k → j ≡ k
log_unique n j k e (low, high) = elim (Bool-cases (ltb j k)) [
  | inl below ↦
      let larger : 2 ^ suc j ≤ 2 ^ k = pow-le-pow_right (omega arith) (ground arith) in
      absurd (omega (arith, e, pow-suc 2 j, one-le-pow j 2))
  | inr over ↦ elim (Bool-cases (ltb k j)) [
    | inl above ↦
        let larger : 2 ^ suc k ≤ 2 ^ j = pow-le-pow_right (omega arith) (ground arith) in
        absurd (omega (arith, e))
    | inr under ↦ ground arith
  ]
]

-- The test holds of a number of w bits exactly if it is a power of two.
pub is_power_of_2_lem : (w n : ℕ) → n < 2 ^ w → (is_power_of_2 w n ≡ true) ↔ ((k : ℕ) × (n ≡ 2 ^ k))
unfolding is_power_of_2
is_power_of_2_lem w n small = (
  λ h. (lg2 w n, ground arith),
  λ (k, e).
      let pos : 1 ≤ n = omega (arith, e, one-le-pow k 2) in
      let same : k ≡ lg2 w n = log_unique n k (lg2 w n) e (lg2-IsLog w n pos small) in
      ground (arith, e, same),
)

pow_double : (base n : ℕ) → (base * base) ^ n ≡ base ^ (2 * n)
pow_double base zero = pow-zero (base * base) ∙ sym (pow-zero base)
pow_double base (suc n) =
    let square : base ^ (2 * suc n) ≡ base ^ suc (suc (2 * n)) = ap (λ m. base ^ m) (omega arith) in
    ground (
      arith,
      square,
      pow_double base n,
      pow-suc (base * base) n,
      pow-suc base (2 * n),
      pow-suc base (suc (2 * n)),
    )

-- The result after a round.
abbrev scaled : ℕ → ℕ → ℕ → ℕ
scaled base exp result = if exp % 2 == 1 then result * base else result

scaled_power :
    (base exp result : ℕ) → scaled base exp result * (base * base) ^ (exp / 2) ≡ result * base ^ exp
scaled_power base exp result = elim (Bool-cases (exp % 2 == 1)) [
  | inl odd ↦
      let whole : base ^ exp ≡ base ^ suc (2 * (exp / 2)) = ap (λ m. base ^ m) (ground arith) in
      rw (odd, whole, pow_double base (exp / 2), pow-suc base (2 * (exp / 2))) (omega arith)
  | inr even ↦
      let whole : base ^ exp ≡ base ^ (2 * (exp / 2)) = ap (λ m. base ^ m) (ground arith) in
      rw (even, whole, pow_double base (exp / 2)) refl
]

ipow_loop_lem :
    (rounds base exp result : ℕ)
    → exp < 2 ^ rounds
    → ipow_loop rounds base exp result ≡ result * base ^ exp
ipow_loop_lem zero base exp result small =
    let none_left : exp ≡ 0 = omega arith in rw none_left (ground (arith, pow-zero base))
ipow_loop_lem (suc rounds) base exp result small =
    let half =
      ipow_loop_lem rounds (base * base) (exp / 2) (scaled base exp result)
        (omega (arith, pow-suc 2 rounds)) in
    elim (Bool-cases (exp / 2 == 0)) [
      | inl last ↦
          let empty : (base * base) ^ (exp / 2) ≡ 1 =
            ap (λ m. (base * base) ^ m) (ground arith) ∙ pow-zero (base * base) in
          let whole : scaled base exp result * 1 ≡ result * base ^ exp =
            rw empty at (scaled_power base exp result) in
          rw last (omega (arith, whole))
      | inr more ↦ rw more (half ∙ scaled_power base exp result)
    ]

-- The power, of an exponent of w bits.
pub ipow_lem : (w base exp : ℕ) → exp < 2 ^ w → ipow w base exp ≡ base ^ exp
unfolding ipow
ipow_lem w base exp small = ground (arith, ipow_loop_lem w base exp 1 small)
