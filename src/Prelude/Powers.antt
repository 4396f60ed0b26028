-- ===== src/Prelude/Powers.antt =====
-- Powers of two by `n & (n - 1)`.
use mathlib.Core.WellFounded
use native.Mathlib.Nat.{pow-suc, mod_self}
use cs230_branch_predictor.Prelude.{
  ℕ, suc, ◌-◌, ◌/◌, ◌%◌, ◌^◌, ◌≤◌, ◌<◌, ◌≡◌, refl, arith, ap, bit_and, ◌==◌, Bool-cases, inl, inr,
}
use cs230_branch_predictor.Prelude.Order.{lt_wf}
use cs230_branch_predictor.Prelude.Digits.{halves_agree, bit_and-halves, bit_and_mask}

bit_and_self : (a : ℕ) → bit_and a a ≡ a
bit_and_self =
    halves_agree (λ n. bit_and n n) (λ n. n) (λ n. n % 2) refl
      (λ n. omega (arith, bit_and-halves n n)) (λ n. omega arith)

-- `n & (n - 1)` clears the lowest set bit, so it is 0 at the powers of two and nowhere else.
pub bit_and_pred-power : (k : ℕ) → bit_and (2 ^ k) (2 ^ k - 1) ≡ 0
bit_and_pred-power k = omega (arith, bit_and_mask k (2 ^ k), mod_self (2 ^ k))

pub power_of_bit_and_pred : (n : ℕ) → 1 ≤ n → bit_and n (n - 1) ≡ 0 → (k : ℕ) × (n ≡ 2 ^ k)
power_of_bit_and_pred n =
    WellFounded.induction lt_wf {C = λ n. 1 ≤ n → bit_and n (n - 1) ≡ 0 → (k : ℕ) × (n ≡ 2 ^ k)} n
      by_half
  where
    by_half :
        (n : ℕ)
        → ((m : ℕ) → m < n → 1 ≤ m → bit_and m (m - 1) ≡ 0 → (k : ℕ) × (m ≡ 2 ^ k))
        → 1 ≤ n
        → bit_and n (n - 1) ≡ 0
        → (k : ℕ) × (n ≡ 2 ^ k)
    by_half n before pos clear = elim (Bool-cases (n % 2 == 0)) [
      | inl even ↦
          let half : (n - 1) / 2 ≡ n / 2 - 1 = ground arith in
          let (k, e) =
            before (n / 2) (ground arith) (ground arith)
              (omega (arith, clear, bit_and-halves n (n - 1), ap (bit_and (n / 2)) half)) in
          (suc k, ground (arith, e, pow-suc 2 k))
      | inr odd ↦
          let half : (n - 1) / 2 ≡ n / 2 = ground arith in
          (
            0,
            ground
                (arith, bit_and-halves n (n - 1), ap (bit_and (n / 2)) half, bit_and_self (n / 2)),
          )
    ]
