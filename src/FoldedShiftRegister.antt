-- ===== src/FoldedShiftRegister.antt =====
-- ChampSim/branch/hashed_perceptron/folded_shift_register.h, and `bitmask` of
-- ChampSim/inc/msl/bits.h: a history of bits in 64-bit values, and its fold to WORD_LEN bits.
pub mod Masks
pub mod Digits
pub mod Refine
mod Tests
use cs230_branch_predictor.Prelude.{
  ℕ, zero, suc, ◌+◌, ◌-◌, ◌*◌, ◌/◌, ◌%◌, ◌^◌, Bool, not, ◌==◌, ltb, leb, List, [], ◌∷◌, bit_and,
  bit_or, bit_xor, if◌then◌else◌,
}

abbrev pub digits : ℕ
digits = 64

-- `bitmask(begin, end)`, for `begin` at least `end`.
unfoldable pub bitmask : ℕ → ℕ → ℕ
bitmask begin end =
    if leb digits (begin - end) then 2 ^ 64 - 1 else (2 ^ (begin - end) - 1) * 2 ^ end % 2 ^ 64

pub record FoldedShiftRegister : Type 0 where
  pub last_value_mask : ℕ
  pub words : List ℕ

abbrev pub replicate_zero : ℕ → List ℕ
replicate_zero zero = []
replicate_zero (suc n) = 0 ∷ replicate_zero n

-- `words.back() &= mask`
unfoldable pub mask_back : ℕ → List ℕ → List ℕ
mask_back mask [] = []
mask_back mask (x ∷ []) = bit_and x mask ∷ []
mask_back mask (x ∷ y ∷ xs) = x ∷ mask_back mask (y ∷ xs)

-- `std::accumulate` with `std::bit_xor`
unfoldable pub join_words : ℕ → List ℕ → ℕ
join_words acc [] = acc
join_words acc (x ∷ xs) = join_words (bit_xor acc x) xs

module _ (word_len : ℕ) where
  abbrev pub num_words_per_value : ℕ
  num_words_per_value = digits / word_len

  abbrev pub value_len : ℕ
  value_len = word_len * num_words_per_value

  -- The constructor, by the length of the history.
  unfoldable pub make : ℕ → FoldedShiftRegister
  make length = record {
    last_value_mask = bitmask (length % value_len) 0;
    words = replicate_zero (length / value_len + (if not (length % value_len == 0) then 1 else 0));
  }

  -- The loop that unpacks the words.
  unfoldable pub unpack : ℕ → ℕ → ℕ → ℕ
  unpack zero joined result = result
  unpack (suc rounds) joined result =
      unpack rounds (joined / 2 ^ word_len) (bit_xor result (joined / 2 ^ word_len))

  unfoldable pub value : FoldedShiftRegister → ℕ
  unfolding join_words unpack
  value s =
      let joined = join_words 0 s.words in
      let result =
        if ltb 1 num_words_per_value
        then unpack (num_words_per_value + 1) joined joined
        else joined in
      bit_and result (bitmask word_len 0)

  unfoldable pub extract_msb : ℕ → ℕ
  extract_msb x = bit_and x (2 ^ (value_len - 1)) / 2 ^ (value_len - 1)

  unfoldable pub shift_and_apply_lsb : ℕ → ℕ → ℕ
  shift_and_apply_lsb x lsb = bit_and (bit_or (x * 2 % 2 ^ 64) lsb) (bitmask value_len 0)

  -- The two transforms at once: each value takes the old most significant bit of the one before it,
  -- and the first one the new bit.
  unfoldable pub shift_words : ℕ → List ℕ → List ℕ
  shift_words lsb [] = []
  shift_words lsb (x ∷ xs) = shift_and_apply_lsb x lsb ∷ shift_words (extract_msb x) xs

  unfoldable pub push_back : Bool → FoldedShiftRegister → FoldedShiftRegister
  unfolding shift_words mask_back
  push_back ins s =
      let shifted = shift_words (if ins then 1 else 0) s.words in
      record s {
        words =
            if not (s.last_value_mask == 0) then mask_back s.last_value_mask shifted else shifted;
      }
