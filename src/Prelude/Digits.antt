-- ===== src/Prelude/Digits.antt =====
-- Laws of `^`, `&` and `|` on unsigned words at variables, from their recursion on binary digits:
-- a step to the halves, the bounds, and masks and aligned fields as arithmetic.
use Prim.Native.Nat.{digits, differ, bit_and-bitwise, bit_or-bitwise, bit_xor-bitwise}
use mathlib.Core.WellFounded
use native.Mathlib.Nat.{pow-suc, pow-succ', one-le-pow, div-div-eq-div-mul, zero-div}
use cs230_branch_predictor.Prelude.{
  ℕ, zero, suc, ◌+◌, ◌-◌, ◌*◌, ◌/◌, ◌%◌, ◌^◌, ◌≤◌, ◌<◌, ◌≡◌, refl, arith, min, max, ap, bit_and,
  bit_or, bit_xor, if◌then◌else◌, ◌==◌, sym, ◌∙◌, ap₂,
}
use cs230_branch_predictor.Prelude.Order.{lt_wf}

-- The recursion of `bitwise` has the first operand as fuel; from there on, k more rounds of it make
-- no difference.
module _ (rest : ℕ → ℕ) (digit : ℕ → ℕ → ℕ) where
  digits-suc : (n a b : ℕ) → a ≤ n → digits rest digit (suc n) a b ≡ digits rest digit n a b
  digits-suc zero zero b fits = refl
  digits-suc zero (suc a) b fits = absurd (omega arith)
  digits-suc (suc n) zero b fits = refl
  digits-suc (suc n) (suc a) b fits = rw (digits-suc n (suc a / 2) (b / 2) (omega arith))

  digits-add :
      (k n m a b : ℕ) → m ≡ k + n → a ≤ n → digits rest digit m a b ≡ digits rest digit n a b
  digits-add zero n m a b e fits = ap (λ i. digits rest digit i a b) (omega (arith, e))
  digits-add (suc k) n zero a b e fits = absurd (omega (arith, e))
  digits-add (suc k) n (suc m) a b e fits =
      digits-suc m a b (omega (arith, e)) ∙ digits-add k n m a b (omega (arith, e)) fits

  -- What is left of a number after its lowest digit has fuel to spare.
  digits-half :
      (a b : ℕ) → digits rest digit a (suc a / 2) b ≡ digits rest digit (suc a / 2) (suc a / 2) b
  digits-half a b =
      digits-add (a - suc a / 2) (suc a / 2) a (suc a / 2) b (omega arith) (omega arith)

differ_small : (x y : ℕ) → x < 2 → y < 2 → differ x y ≡ (x + y) % 2
differ_small zero y p q = omega arith
differ_small (suc zero) zero p q = refl
differ_small (suc zero) (suc zero) p q = refl
differ_small (suc zero) (suc (suc y)) p q = absurd (omega arith)
differ_small (suc (suc x)) y p q = absurd (omega arith)

pub bit_xor-halves : (a b : ℕ) → bit_xor a b ≡ bit_xor (a / 2) (b / 2) * 2 + (a + b) % 2
bit_xor-halves zero b = simp bit_xor-bitwise (omega arith)
bit_xor-halves (suc a) b = simp bit_xor-bitwise (
    omega (
      arith,
      digits-half (λ y. y) differ a (b / 2),
      differ_small (suc a % 2) (b % 2) (omega arith) (omega arith),
    ))

pub bit_and-halves : (a b : ℕ) → bit_and a b ≡ bit_and (a / 2) (b / 2) * 2 + min (a % 2) (b % 2)
bit_and-halves zero b = simp bit_and-bitwise (omega arith)
bit_and-halves (suc a) b = simp bit_and-bitwise (omega (arith, digits-half (λ y. 0) min a (b / 2)))

pub bit_or-halves : (a b : ℕ) → bit_or a b ≡ bit_or (a / 2) (b / 2) * 2 + max (a % 2) (b % 2)
bit_or-halves zero b = simp bit_or-bitwise (omega arith)
bit_or-halves (suc a) b = simp bit_or-bitwise (omega (arith, digits-half (λ y. y) max a (b / 2)))

pub mod_double : (a m : ℕ) → 0 < m → a % (m * 2) ≡ a / 2 % m * 2 + a % 2
mod_double a m h = grind arith

zero-bit_xor : (b : ℕ) → bit_xor 0 b ≡ b
zero-bit_xor b = simp bit_xor-bitwise

-- Two functions that agree at 0 and build their values from the half and the same lowest digit agree.
pub halves_agree :
    (f g low : ℕ → ℕ)
    → f 0 ≡ g 0
    → ((n : ℕ) → f n ≡ f (n / 2) * 2 + low n)
    → ((n : ℕ) → g n ≡ g (n / 2) * 2 + low n)
    → (a : ℕ) → f a ≡ g a
halves_agree f g low start hf hg a = WellFounded.induction lt_wf {C = λ n. f n ≡ g n} a by_half
  where
    by_half : (n : ℕ) → ((m : ℕ) → m < n → f m ≡ g m) → f n ≡ g n
    by_half zero before = start
    by_half (suc n) before = omega (arith, hf (suc n), hg (suc n), before (suc n / 2) (omega arith))

pub bit_xor-zero : (a : ℕ) → bit_xor a 0 ≡ a
bit_xor-zero =
    halves_agree (λ n. bit_xor n 0) (λ n. n) (λ n. n % 2) refl
      (λ n. omega (arith, bit_xor-halves n 0)) (λ n. omega arith)

pub bit_xor_comm : (a b : ℕ) → bit_xor a b ≡ bit_xor b a
bit_xor_comm a = WellFounded.induction lt_wf {C = λ n. (b : ℕ) → bit_xor n b ≡ bit_xor b n} a step
  where
    step :
        (n : ℕ)
        → ((m : ℕ) → m < n → (b : ℕ) → bit_xor m b ≡ bit_xor b m)
        → (b : ℕ) → bit_xor n b ≡ bit_xor b n
    step zero ih b = omega (arith, zero-bit_xor b, bit_xor-zero b)
    step (suc n) ih b = omega (
      arith,
      bit_xor-halves (suc n) b,
      bit_xor-halves b (suc n),
      ih (suc n / 2) (omega arith) (b / 2),
    )

pub bit_xor-lt : (k a b : ℕ) → a < 2 ^ k → b < 2 ^ k → bit_xor a b < 2 ^ k
bit_xor-lt zero a b p q =
    let a0 : a ≡ 0 = omega arith in let b0 : b ≡ 0 = omega arith in rw (a0, b0) (omega arith)
bit_xor-lt (suc k) a b p q = omega (
  arith,
  pow-suc 2 k,
  bit_xor-halves a b,
  bit_xor-lt k (a / 2) (b / 2) (omega (arith, pow-suc 2 k)) (omega (arith, pow-suc 2 k)),
)

zero-bit_and : (b : ℕ) → bit_and 0 b ≡ 0
zero-bit_and b = simp bit_and-bitwise

pub bit_and-zero : (a : ℕ) → bit_and a 0 ≡ 0
bit_and-zero =
    halves_agree (λ n. bit_and n 0) (λ n. 0) (λ n. 0) refl (λ n. omega (arith, bit_and-halves n 0))
      (λ n. omega arith)

-- `a & ((1 << k) - 1)` is the remainder by `2 ^ k`.
pub bit_and_mask : (k a : ℕ) → bit_and a (2 ^ k - 1) ≡ a % 2 ^ k
bit_and_mask zero a = omega (arith, bit_and-zero a)
bit_and_mask (suc k) a = omega (
  arith,
  pow-suc 2 k,
  one-le-pow k 2 (omega arith),
  bit_and-halves a (2 ^ suc k - 1),
  ap (bit_and (a / 2)) half,
  bit_and_mask k (a / 2),
  ap (λ (m : ℕ). a % m) (pow-suc 2 k),
  mod_double a (2 ^ k) (one-le-pow k 2 (omega arith)),
)
  where
    half : (2 ^ suc k - 1) / 2 ≡ 2 ^ k - 1
    half = omega (arith, pow-suc 2 k, one-le-pow k 2 (omega arith))

pub bit_or-zero : (a : ℕ) → bit_or a 0 ≡ a
bit_or-zero =
    halves_agree (λ n. bit_or n 0) (λ n. n) (λ n. n % 2) refl
      (λ n. omega (arith, bit_or-halves n 0)) (λ n. omega arith)

-- Shifting a bit in from the right.
pub bit_or-push : (a b : ℕ) → b < 2 → bit_or (a * 2) b ≡ a * 2 + b
bit_or-push a b h = omega (arith, bit_or-halves (a * 2) b, ap₂ bit_or halves gone, bit_or-zero a)
  where
    halves : a * 2 / 2 ≡ a
    halves = omega arith

    gone : b / 2 ≡ 0
    gone = omega arith

-- Bit p of a number.
abbrev pub bit_at : ℕ → ℕ → ℕ
bit_at a p = a / 2 ^ p % 2

bit_at-suc : (a p : ℕ) → bit_at a (suc p) ≡ bit_at (a / 2) p
bit_at-suc a p =
    ap (λ (q : ℕ). q % 2)
      (ap (λ (m : ℕ). a / m) (pow-succ' 2 p) ∙ sym (div-div-eq-div-mul a 2 (2 ^ p)))

-- `^` adds each bit without carry.
pub bit_at-bit_xor : (p a b : ℕ) → bit_at (bit_xor a b) p ≡ (bit_at a p + bit_at b p) % 2
bit_at-bit_xor zero a b = omega (arith, bit_xor-halves a b)
bit_at-bit_xor (suc p) a b =
    let half : bit_xor a b / 2 ≡ bit_xor (a / 2) (b / 2) = omega (arith, bit_xor-halves a b) in
    rw (bit_at-suc (bit_xor a b) p, bit_at-suc a p, bit_at-suc b p, half)
      (bit_at-bit_xor p (a / 2) (b / 2))

pub bit_at-pow : (p q : ℕ) → bit_at (2 ^ q) p ≡ (if p == q then 1 else 0)
bit_at-pow zero zero = refl
bit_at-pow zero (suc q) = ground (arith, pow-suc 2 q)
bit_at-pow (suc p) zero = rw (bit_at-suc 1 p) (zero_bit p ∙ ground arith)
  where
    zero_bit : (k : ℕ) → bit_at (1 / 2) k ≡ 0
    zero_bit k = omega (arith, zero-div (2 ^ k))
bit_at-pow (suc p) (suc q) =
    let half : 2 ^ suc q / 2 ≡ 2 ^ q = omega (arith, pow-suc 2 q) in
    rw (bit_at-suc (2 ^ suc q) p, half) (bit_at-pow p q ∙ ground arith)
