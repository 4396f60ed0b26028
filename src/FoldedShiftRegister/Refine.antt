-- ===== src/FoldedShiftRegister/Refine.antt =====
-- ChampSim/branch/hashed_perceptron/folded_shift_register.h: `push_back` is a shift of the number
-- that holds the whole history.
use native.Mathlib.Nat.{
  pow-le-pow_right, one-le-pow, mod-lt, mod-eq_of_lt, div-add-mod, add-mul-mod_self_left,
}
use mathlib.Core.Path.{subst}
use cs230_branch_predictor.Prelude.{
  ℕ, zero, suc, ◌+◌, ◌-◌, ◌*◌, ◌/◌, ◌%◌, ◌^◌, ◌≤◌, ◌<◌, ◌≡◌, refl, arith, Bool, not, ◌==◌, List, [],
  ◌∷◌, if◌then◌else◌, ap, ap₂, ◌∙◌, sym, true, Bool-cases, inl, inr,
}
use cs230_branch_predictor.Prelude.Sequences.{length}
use cs230_branch_predictor.FoldedShiftRegister.{
  FoldedShiftRegister, digits, value_len, make, extract_msb, shift_and_apply_lsb, shift_words,
  mask_back, push_back, replicate_zero,
}
use cs230_branch_predictor.FoldedShiftRegister.Masks.{bitmask_lem, value_len_bounds}
use cs230_branch_predictor.FoldedShiftRegister.Digits.{
  joined, AllBelow, span, joined-lt, two_pow_add, span-eq-pow, mask_back-joined, mask_back-length,
  mask_back-AllBelow, shift_words-AllBelow, shift_words-joined,
}

-- The history of a register, as the number whose bit i is the outcome of i + 1 pushes ago.
module _ (word_len : ℕ) where
  abbrev pub history : FoldedShiftRegister → ℕ
  history s = joined (value_len word_len) s.words

  -- The shape that the constructor gives for a history of so many bits.
  pub record IsRegister (len : ℕ) (s : FoldedShiftRegister) : Type 0 where
    pub count :
        length s.words ≡ len / value_len word_len + (if len % value_len word_len == 0 then 0 else 1)
    pub mask : s.last_value_mask ≡ 2 ^ (len % value_len word_len) - 1
    pub values : AllBelow (2 ^ value_len word_len) s.words

module _ (word_len : ℕ) (pos : 1 ≤ word_len) (fits : word_len ≤ digits) where
  abbrev v : ℕ
  v = value_len word_len

  v_bounds : (1 ≤ v) × (v ≤ 64)
  v_bounds = value_len_bounds word_len pos fits

  zeros :
      (n : ℕ)
      → (length (replicate_zero n) ≡ n)
        × AllBelow (2 ^ v) (replicate_zero n)
        × (joined v (replicate_zero n) ≡ 0)
  zeros zero = (refl, tt, refl)
  zeros (suc n) =
      let rest = zeros n in
      (
        ap suc rest.0,
        (one-le-pow v 2 (omega arith), rest.1),
        omega (arith, ap (λ (k : ℕ). 2 ^ v * k) rest.2),
      )

  -- A new register for a history of any length has its shape and an empty history.
  pub make-IsRegister :
      (len : ℕ)
      → IsRegister word_len len (make word_len len) × (history word_len (make word_len len) ≡ 0)
  unfolding make
  make-IsRegister len =
      let n = len / v + (if not (len % v == 0) then 1 else 0) in
      (
        record {
          count = (zeros n).0 ∙ ground arith;
          mask =
              bitmask_lem (len % v)
                (omega (arith, v_bounds, mod-lt len {m = v} (omega (arith, v_bounds))));
          values = (zeros n).1;
        },
        (zeros n).2,
      )

  shifted_mod :
      (lsb : ℕ) (xs : List ℕ) (m d : ℕ)
      → lsb < 2
      → AllBelow (2 ^ v) xs
      → span v (length xs) ≡ m * d
      → (joined v xs * 2 + lsb) % m ≡ joined v (shift_words word_len lsb xs) % m
  shifted_mod lsb xs m d l h e =
      let carry = shift_words-joined word_len pos fits lsb xs l h in
      let whole : joined v xs * 2 + lsb
          ≡ joined v (shift_words word_len lsb xs) + m * (d * carry.0) =
        omega (arith, carry.1, ap (λ (k : ℕ). k * carry.0) e) in
      rw whole (add-mul-mod_self_left (joined v (shift_words word_len lsb xs)) m (d * carry.0))

  length-shift_words : (lsb : ℕ) (xs : List ℕ) → length (shift_words word_len lsb xs) ≡ length xs
  unfolding shift_words
  length-shift_words lsb [] = refl
  length-shift_words lsb (x ∷ xs) = ap suc (length-shift_words (extract_msb word_len x) xs)

  -- `len` in whole values and a rest.
  len_lem : (len : ℕ) → 2 ^ len ≡ span v (len / v) * 2 ^ (len % v)
  len_lem len =
      let parts : len ≡ v * (len / v) + len % v = omega (arith, div-add-mod len v) in
      ap (λ (k : ℕ). 2 ^ k) parts
      ∙ two_pow_add (v * (len / v)) (len % v)
      ∙ ap (λ (k : ℕ). k * 2 ^ (len % v)) (sym (span-eq-pow v (len / v)))

  -- The whole values alone, if there is no rest.
  push_whole :
      (len lsb : ℕ) (xs : List ℕ)
      → lsb < 2
      → AllBelow (2 ^ v) xs
      → len % v ≡ 0
      → length xs ≡ len / v
      → joined v (shift_words word_len lsb xs) ≡ (joined v xs * 2 + lsb) % 2 ^ len
  push_whole len lsb xs l h rest count =
      let size : 2 ^ len ≡ span v (length xs) = len_lem len ∙ rw (rest, count) (omega arith) in
      let below =
        joined-lt v (shift_words word_len lsb xs)
          (shift_words-AllBelow word_len pos fits lsb xs l h) in
      let same_span = ap (span v) (length-shift_words lsb xs) in
      rw size (
        sym (
          shifted_mod lsb xs (span v (length xs)) 1 l h (omega arith)
          ∙ mod-eq_of_lt (omega (arith, same_span, below))))

  span_split : (len n : ℕ) → n ≡ suc (len / v) → span v n ≡ 2 ^ len * 2 ^ (v - len % v)
  span_split len n e =
      let r = len % v in
      let below : r < v = mod-lt len {m = v} v_bounds.0 in
      let parts : v ≡ r + (v - r) = omega arith in
      ap (span v) e
      ∙ ap (λ (k : ℕ). k * span v (len / v)) (ap (λ (k : ℕ). 2 ^ k) parts ∙ two_pow_add r (v - r))
      ∙ omega (arith, ap (λ (k : ℕ). k * 2 ^ (v - r)) (len_lem len))

  -- The last value is cut, if there is a rest.
  push_rest :
      (len lsb : ℕ) (xs : List ℕ)
      → lsb < 2
      → AllBelow (2 ^ v) xs
      → length xs ≡ suc (len / v)
      → joined v (mask_back (2 ^ (len % v) - 1) (shift_words word_len lsb xs))
        ≡ (joined v xs * 2 + lsb) % 2 ^ len
  unfolding shift_words
  push_rest len lsb [] l h count = absurd (omega arith)
  push_rest len lsb (x ∷ xs) l h count =
      let rest = shift_words word_len (extract_msb word_len x) xs in
      let valid = shift_words-AllBelow word_len pos fits lsb (x ∷ xs) l h in
      let modulus : span v (length rest) * 2 ^ (len % v) ≡ 2 ^ len =
        ap (λ (k : ℕ). span v k * 2 ^ (len % v))
          (length-shift_words (extract_msb word_len x) xs ∙ omega (arith, count))
        ∙ sym (len_lem len) in
      mask_back-joined v (len % v) (shift_and_apply_lsb word_len x lsb) rest valid
      ∙ ap (λ (k : ℕ). joined v (shift_words word_len lsb (x ∷ xs)) % k) modulus
      ∙ sym (
          shifted_mod lsb (x ∷ xs) (2 ^ len) (2 ^ (v - len % v)) l h
            (span_split len (length (x ∷ xs)) count))

  mask_set : (len mask : ℕ) → mask ≡ 2 ^ (len % v) - 1 → 1 ≤ len % v → not (mask == 0) ≡ true
  mask_set len mask m some_left =
      let big = pow-le-pow_right {n = 2} (omega arith) some_left in ground (arith, big)

  abbrev pushed : ℕ → ℕ → List ℕ → List ℕ
  pushed mask lsb xs =
      if not (mask == 0)
      then mask_back mask (shift_words word_len lsb xs)
      else shift_words word_len lsb xs

  -- What a push must do to the values.
  abbrev Doubles : ℕ → ℕ → List ℕ → List ℕ → Type 0
  Doubles len lsb xs ys =
      (length ys ≡ length xs)
      × AllBelow (2 ^ v) ys
      × (joined v ys ≡ (joined v xs * 2 + lsb) % 2 ^ len)

  pushed_lem :
      (len lsb mask : ℕ) (xs : List ℕ)
      → lsb < 2
      → mask ≡ 2 ^ (len % v) - 1
      → AllBelow (2 ^ v) xs
      → length xs ≡ len / v + (if len % v == 0 then 0 else 1)
      → Doubles len lsb xs (pushed mask lsb xs)
  pushed_lem len lsb mask xs l m h count = elim (Bool-cases (len % v == 0)) [
    | inl e ↦
        let none_left : len % v ≡ 0 = ground arith in
        let no_mask : mask ≡ 0 = omega (arith, m, ap (λ (k : ℕ). 2 ^ k) none_left) in
        rw no_mask (
          length-shift_words lsb xs,
          shift_words-AllBelow word_len pos fits lsb xs l h,
          push_whole len lsb xs l h none_left (ground arith),
        )
    | inr ne ↦
        let masked : not (mask == 0) ≡ true = mask_set len mask m (ground arith) in
        subst (Doubles len lsb xs)
          (sym (
            ap₂
              (λ (b : Bool) k.
                if b
                then mask_back k (shift_words word_len lsb xs)
                else shift_words word_len lsb xs)
              masked m))
          (
            mask_back-length v (len % v) (2 ^ (len % v) - 1) (shift_words word_len lsb xs)
                ∙ length-shift_words lsb xs,
            mask_back-AllBelow v (len % v) (shift_words word_len lsb xs)
                (shift_words-AllBelow word_len pos fits lsb xs l h),
            push_rest len lsb xs l h (ground arith),
          )
  ]

  -- `push_back` refines a shift register of `len` bits: the new history is the old one doubled, plus
  -- the new bit, without the bits past the length; and the register keeps its shape.
  pub push_back_refines :
      (len : ℕ) (ins : Bool) (s : FoldedShiftRegister)
      → IsRegister word_len len s
      → IsRegister word_len len (push_back word_len ins s)
        × (history word_len (push_back word_len ins s)
            ≡ (history word_len s * 2 + (if ins then 1 else 0)) % 2 ^ len)
  unfolding push_back
  push_back_refines len ins s reg =
      let lsb : ℕ = if ins then 1 else 0 in
      let done =
        pushed_lem len lsb s.last_value_mask s.words (ground arith) reg.mask reg.values reg.count in
      (record { count = done.0 ∙ reg.count; mask = reg.mask; values = done.1 }, done.2)
