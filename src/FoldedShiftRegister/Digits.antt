-- ===== src/FoldedShiftRegister/Digits.antt =====
-- ChampSim/branch/hashed_perceptron/folded_shift_register.h: the values of a register as the digits,
-- to the base 2 ^ VALUE_LEN, of one number.
use native.Mathlib.Nat.{
  pow-suc, one-le-pow, mod-lt, mod-le, mod-eq_of_lt, div-lt_iff_lt-mul, mul-div-mul_right,
  div-add-mod, mul-add-mod_self_left,
}
use cs230_branch_predictor.Prelude.{
  ℕ, zero, suc, ◌+◌, ◌-◌, ◌*◌, ◌/◌, ◌%◌, ◌^◌, ◌≤◌, ◌<◌, ◌≡◌, refl, arith, List, [], ◌∷◌, ap, ap₂,
  ◌∙◌, sym,
}
use cs230_branch_predictor.Prelude.Digits.{mod_double, bit_and_mask}
use cs230_branch_predictor.Prelude.Sequences.{length}
use cs230_branch_predictor.FoldedShiftRegister.{
  digits, value_len, extract_msb, shift_words, mask_back,
}
use cs230_branch_predictor.FoldedShiftRegister.Masks.{value_len_bounds, extract_lem, shift_lem}

-- The number whose digits to the base 2 ^ v are the values.
abbrev pub joined : ℕ → List ℕ → ℕ
joined v [] = 0
joined v (x ∷ xs) = x + 2 ^ v * joined v xs

abbrev pub AllBelow : ℕ → List ℕ → Type 0
AllBelow n [] = Unit
AllBelow n (x ∷ xs) = (x < n) × AllBelow n xs

-- (2 ^ v) ^ n
abbrev pub span : ℕ → ℕ → ℕ
span v zero = 1
span v (suc n) = 2 ^ v * span v n

pub mod_unique : (a m q r : ℕ) → a ≡ m * q + r → r < m → a % m ≡ r
mod_unique a m q r e h = rw (e, mul-add-mod_self_left) (mod-eq_of_lt h)

digit-lt : (b x y m : ℕ) → x < b → y < m → x + b * y < b * m
digit-lt b x y m hx hy = grind arith

pub joined-lt : (v : ℕ) (xs : List ℕ) → AllBelow (2 ^ v) xs → joined v xs < span v (length xs)
joined-lt v [] h = omega arith
joined-lt v (x ∷ xs) h =
    digit-lt (2 ^ v) x (joined v xs) (span v (length xs)) h.0 (joined-lt v xs h.1)

pub two_pow_add : (a b : ℕ) → 2 ^ (a + b) ≡ 2 ^ a * 2 ^ b
two_pow_add zero b = omega (arith, ap (λ (k : ℕ). 2 ^ k) drop)
  where
    drop : 0 + b ≡ b
    drop = omega arith
two_pow_add (suc a) b =
    let next : suc a + b ≡ suc (a + b) = omega arith in
    ap (λ (k : ℕ). 2 ^ k) next
    ∙ omega (arith, pow-suc 2 (a + b), two_pow_add a b, ap (λ (m : ℕ). m * 2 ^ b) (pow-suc 2 a))

pub span-eq-pow : (v n : ℕ) → span v n ≡ 2 ^ (v * n)
span-eq-pow v zero = let none_left : 0 ≡ v * 0 = omega arith in ap (λ (k : ℕ). 2 ^ k) none_left
span-eq-pow v (suc n) =
    let next : v * suc n ≡ v + v * n = omega arith in
    ap (λ (m : ℕ). 2 ^ v * m) (span-eq-pow v n)
    ∙ sym (ap (λ (k : ℕ). 2 ^ k) next ∙ two_pow_add v (v * n))

-- One value, and the rest of the number, are doubled; the carry goes into the rest.
double_digit :
    (b x lsb : ℕ)
    → 0 < b
    → lsb < 2
    → (x * 2 + lsb) % (b * 2) + b * 2 * (x * 2 / (b * 2)) ≡ x * 2 + lsb
double_digit b x lsb p l =
    let half : (x * 2 + lsb) / 2 ≡ x = omega arith in
    omega (
      arith,
      mod_double (x * 2 + lsb) b p,
      ap (λ (k : ℕ). k % b) half,
      ap (λ (k : ℕ). b * 2 * k) (mul-div-mul_right {m = 2} x b (omega arith)),
      div-add-mod x b,
    )

double_digits :
    (b x lsb rest span carry xs : ℕ)
    → 0 < b
    → lsb < 2
    → rest + span * carry ≡ xs * 2 + x * 2 / (b * 2)
    → (x * 2 + lsb) % (b * 2) + b * 2 * rest + b * 2 * span * carry ≡ (x + b * 2 * xs) * 2 + lsb
double_digits b x lsb rest span carry xs p l h =
    omega (arith, double_digit b x lsb p l, ap (λ (k : ℕ). b * 2 * k) h)

carry-lt : (b x : ℕ) → 0 < b → x < b → x * 2 / b < 2
carry-lt b x p h = (div-lt_iff_lt-mul p).1 (omega arith)

-- The shift of all values is one step of long multiplication by two.
module _ (word_len : ℕ) (pos : 1 ≤ word_len) (fits : word_len ≤ digits) where
  abbrev base : ℕ
  base = 2 ^ value_len word_len

  base_pos : 0 < base
  base_pos = one-le-pow (value_len word_len) 2 (omega arith)

  pub shift_words-AllBelow :
      (lsb : ℕ) (xs : List ℕ)
      → lsb < 2
      → AllBelow base xs
      → AllBelow base (shift_words word_len lsb xs)
  unfolding shift_words
  shift_words-AllBelow lsb [] l h = tt
  shift_words-AllBelow lsb (x ∷ xs) l h = (
    rw (shift_lem word_len pos fits x lsb h.0 l) (mod-lt (x * 2 + lsb) base_pos),
    shift_words-AllBelow (extract_msb word_len x) xs
        (rw (extract_lem word_len pos fits x h.0) (carry-lt base x base_pos h.0)) h.1,
  )

  long_doubling :
      (x lsb rest span carry xs : ℕ)
      → lsb < 2
      → rest + span * carry ≡ xs * 2 + x * 2 / base
      → (x * 2 + lsb) % base + base * rest + base * span * carry ≡ (x + base * xs) * 2 + lsb
  long_doubling x lsb rest span carry xs l h =
      let k = value_len word_len - 1 in
      let even : base ≡ 2 ^ k * 2 =
        ap (λ (n : ℕ). 2 ^ n) (omega (arith, value_len_bounds word_len pos fits)) ∙ pow-suc 2 k in
      rw even (
        double_digits (2 ^ k) x lsb rest span carry xs (one-le-pow k 2 (omega arith)) l
          (rw even at h))

  pub shift_words-joined :
      (lsb : ℕ) (xs : List ℕ)
      → lsb < 2
      → AllBelow base xs
      → (carry : ℕ) × (joined (value_len word_len) (shift_words word_len lsb xs)
            + span (value_len word_len) (length xs) * carry
          ≡ joined (value_len word_len) xs * 2 + lsb)
  unfolding shift_words
  shift_words-joined lsb [] l h = (lsb, omega arith)
  shift_words-joined lsb (x ∷ xs) l h =
      let msb = extract_msb word_len x in
      let out = extract_lem word_len pos fits x h.0 in
      let rest = shift_words-joined msb xs (rw out (carry-lt base x base_pos h.0)) h.1 in
      (
        rest.0,
        rw (shift_lem word_len pos fits x lsb h.0 l) (
            long_doubling x lsb (joined (value_len word_len) (shift_words word_len msb xs))
              (span (value_len word_len) (length xs)) rest.0 (joined (value_len word_len) xs) l
              (rest.1 ∙ ap (λ m. joined (value_len word_len) xs * 2 + m) out)),
      )

-- Masking the last value takes the number modulo its new length.
mask_digit : (b x y m : ℕ) → x < b → 0 < m → x + b * (y % m) ≡ (x + b * y) % (b * m)
mask_digit b x y m h p = sym (
    mod_unique (x + b * y) (b * m) (y / m) (x + b * (y % m))
      (omega (arith, ap (λ (k : ℕ). b * k) (div-add-mod y m)))
      (digit-lt b x (y % m) m h (mod-lt y p)))

mul_pos : (a b : ℕ) → 0 < a → 0 < b → 0 < a * b
mul_pos a b p q = grind arith

span_pos : (v n : ℕ) → 0 < span v n
span_pos v zero = omega arith
span_pos v (suc n) = mul_pos (2 ^ v) (span v n) (one-le-pow v 2 (omega arith)) (span_pos v n)

span_pow_pos : (v r n : ℕ) → 0 < span v n * 2 ^ r
span_pow_pos v r n = mul_pos (span v n) (2 ^ r) (span_pos v n) (one-le-pow r 2 (omega arith))

module _ (v r : ℕ) where
  pub mask_back-joined :
      (x : ℕ) (xs : List ℕ)
      → AllBelow (2 ^ v) (x ∷ xs)
      → joined v (mask_back (2 ^ r - 1) (x ∷ xs)) ≡ joined v (x ∷ xs) % (span v (length xs) * 2 ^ r)
  unfolding mask_back
  mask_back-joined x [] h =
      let masked : x + 2 ^ v * 0 ≡ x = omega arith in
      let whole : 1 * 2 ^ r ≡ 2 ^ r = omega arith in
      let kept : x % 2 ^ r + 2 ^ v * 0 ≡ x % 2 ^ r = omega arith in
      rw (bit_and_mask r x) (kept ∙ ap₂ (λ (a m : ℕ). a % m) (sym masked) (sym whole))
  mask_back-joined x (y ∷ xs) h =
      ap (λ (k : ℕ). x + 2 ^ v * k) (mask_back-joined y xs h.1)
      ∙ mask_digit (2 ^ v) x (joined v (y ∷ xs)) (span v (length xs) * 2 ^ r) h.0
          (span_pow_pos v r (length xs))
      ∙ ap (λ (k : ℕ). (x + 2 ^ v * joined v (y ∷ xs)) % k) (omega arith)

  pub mask_back-length : (mask : ℕ) (xs : List ℕ) → length (mask_back mask xs) ≡ length xs
  unfolding mask_back
  mask_back-length mask [] = refl
  mask_back-length mask (x ∷ []) = refl
  mask_back-length mask (x ∷ y ∷ xs) = ap suc (mask_back-length mask (y ∷ xs))

  pub mask_back-AllBelow :
      (xs : List ℕ) → AllBelow (2 ^ v) xs → AllBelow (2 ^ v) (mask_back (2 ^ r - 1) xs)
  unfolding mask_back
  mask_back-AllBelow [] h = tt
  mask_back-AllBelow (x ∷ []) h = (omega (arith, bit_and_mask r x, mod-le x (2 ^ r)), tt)
  mask_back-AllBelow (x ∷ y ∷ xs) h = (h.0, mask_back-AllBelow (y ∷ xs) h.1)
