-- ===== src/HashedPerceptron/Laws.antt =====
-- ChampSim/branch/hashed_perceptron: the accesses and the weights stay in bounds, the threshold is
-- never negative, and training moves the sum towards the outcome.
use mathlib.Core.List.{map}
use native.Mathlib.Nat.{mod-lt}
use cs230_branch_predictor.Prelude.{
  ℕ, ◌+◌, ◌<◌, ◌≡◌, arith, Bool, true, false, not, ◌||◌, ◌&&◌, ◌==◌, List, [], ◌∷◌, if◌then◌else◌,
  update₂, Bool-cases, inl, inr,
}
use cs230_branch_predictor.Prelude.Int.{ℤ, pos, negsuc, ◌+ℤ◌, ◌≤ℤ◌, abs_nonneg, +ℤ_parts, -ℤ_parts}
use cs230_branch_predictor.Prelude.Digits.{bit_and_mask, bit_xor-lt}
use cs230_branch_predictor.Counter.{sfwcounter, add_assign}
use cs230_branch_predictor.Counter.Laws.{clamp-IsBounded}
use cs230_branch_predictor.Counter.Training.{IsWeight}
use cs230_branch_predictor.FoldedShiftRegister.{FoldedShiftRegister, value, push_back, bitmask}
use cs230_branch_predictor.HashedPerceptron.{
  HashedPerceptron, table_index_bits, table_size, get_index, predict_branch, update_weights,
  adjust_threshold, is_correct, is_weak, last_branch_result,
}

value-lt : (hist : FoldedShiftRegister) → value table_index_bits hist < table_size
unfolding value bitmask
value-lt hist = rw (bit_and_mask 12) (mod-lt _ (omega arith))

get_index-lt : (pc : ℕ) (hist : FoldedShiftRegister) → get_index pc hist < table_size
unfolding get_index
get_index-lt pc hist = bit_xor-lt 12 _ _ (value-lt hist) (mod-lt pc (omega arith))

abbrev pub AllBelow : ℕ → List ℕ → Type 0
AllBelow n [] = Unit
AllBelow n (x ∷ xs) = (x < n) × AllBelow n xs

indices-AllBelow :
    (pc : ℕ) (hists : List FoldedShiftRegister) → AllBelow table_size (map (get_index pc) hists)
indices-AllBelow pc [] = tt
indices-AllBelow pc (h ∷ hs) = (get_index-lt pc h, indices-AllBelow pc hs)

-- The state that every run keeps.
pub record IsValid (s : HashedPerceptron) : Type 0 where
  pub weights : (i j : ℕ) → IsWeight (s.tables i j)
  pub indices : AllBelow table_size s.last_result.indices
  pub theta_nonneg : pos 0 ≤ℤ s.theta
  pub tc_low : negsuc 16 ≤ℤ s.tc
  pub tc_high : s.tc ≤ℤ pos 17

pub update₂-IsWeight :
    (taken : Bool) (i k : ℕ) (tables : ℕ → ℕ → ℤ) (c j : ℕ)
    → ((c j : ℕ) → IsWeight (tables c j))
    → IsWeight (
        update₂ tables i k
          (add_assign (sfwcounter 8) (tables i k) (if taken then pos 1 else negsuc 0))
          c
          j)
unfolding add_assign
update₂-IsWeight taken i k tables c j v = elim (Bool-cases (c == i && j == k)) [
  | inl e ↦ rw e (
      clamp-IsBounded (sfwcounter 8) (tables i k +ℤ (if taken then pos 1 else negsuc 0))
        (omega arith))
  | inr e ↦ rw e (v c j)
]

update_weights-IsWeight :
    (taken : Bool) (i : ℕ) (js : List ℕ) (tables : ℕ → ℕ → ℤ)
    → ((c j : ℕ) → IsWeight (tables c j))
    → (c j : ℕ) → IsWeight (update_weights taken i js tables c j)
unfolding update_weights
update_weights-IsWeight taken i [] tables v c j = v c j
update_weights-IsWeight taken i (k ∷ ks) tables v c₀ j₀ =
    update_weights-IsWeight taken (i + 1) ks _ (λ c j. update₂-IsWeight taken i k tables c j v) c₀
      j₀

-- The threshold stays at 0 or more if it is lowered only from 1 or more.
abbrev ThresholdIsValid : HashedPerceptron → Type 0
ThresholdIsValid s = (pos 0 ≤ℤ s.theta) × (negsuc 16 ≤ℤ s.tc) × (s.tc ≤ℤ pos 17)

adjust_threshold-wrong :
    (s : HashedPerceptron) → ThresholdIsValid s → ThresholdIsValid (adjust_threshold false s)
unfolding adjust_threshold
adjust_threshold-wrong s v = ground (arith, +ℤ_parts s.tc (pos 1), +ℤ_parts s.theta (pos 1))

adjust_threshold-weak :
    (s : HashedPerceptron)
    → ThresholdIsValid s
    → pos 1 ≤ℤ s.theta
    → ThresholdIsValid (adjust_threshold true s)
unfolding adjust_threshold
adjust_threshold-weak s v h =
    ground (arith, -ℤ_parts s.tc (pos 1), -ℤ_parts s.theta (pos 1), -ℤ_parts (pos 0) (pos 18))

adjust_threshold-keeps :
    (correct : Bool) (s : HashedPerceptron)
    → ((adjust_threshold correct s).tables ≡ s.tables)
      × ((adjust_threshold correct s).last_result ≡ s.last_result)
unfolding adjust_threshold
adjust_threshold-keeps correct s = ground arith

-- A prediction keeps the state valid, and reads every table inside its 4096 weights: `at` does not
-- throw.
pub hashed_predict-IsValid :
    (pc : ℕ) (s : HashedPerceptron) → IsValid s → IsValid (predict_branch s pc).0
unfolding predict_branch
hashed_predict-IsValid pc s v = record {
  weights = v.weights;
  indices = indices-AllBelow pc s.ghist_words;
  theta_nonneg = v.theta_nonneg;
  tc_low = v.tc_low;
  tc_high = v.tc_high;
}

adjust_threshold-IsValid :
    (correct : Bool) (s : HashedPerceptron)
    → IsValid s
    → ThresholdIsValid (adjust_threshold correct s)
    → IsValid (adjust_threshold correct s)
adjust_threshold-IsValid correct s v h =
    let kept = adjust_threshold-keeps correct s in
    record {
      weights = λ i j. rw kept.0 (v.weights i j);
      indices = rw kept.1 v.indices;
      theta_nonneg = h.0;
      tc_low = h.1;
      tc_high = h.2;
    }

adjusted :
    (correct : Bool) (s : HashedPerceptron)
    → IsValid s
    → not correct || is_weak s ≡ true
    → ThresholdIsValid (adjust_threshold correct s)
adjusted false s v h = adjust_threshold-wrong s (v.theta_nonneg, v.tc_low, v.tc_high)
adjusted true s v h =
    adjust_threshold-weak s (v.theta_nonneg, v.tc_low, v.tc_high)
      (ground (arith, abs_nonneg s.last_result.yout))

-- An update keeps the state valid: weights of 8 bits, a threshold counter strictly between -18 and 18,
-- and a threshold that never falls below 0, although it is lowered by one at a time without a test.
pub hashed_update-IsValid :
    (taken : Bool) (s : HashedPerceptron) → IsValid s → IsValid (last_branch_result taken s)
unfolding last_branch_result
hashed_update-IsValid taken s v = elim (Bool-cases (not (is_correct taken s) || is_weak s)) [
  | inl e ↦ rw e (
      adjust_threshold-IsValid (is_correct taken s) trained trained-IsValid
        (adjusted (is_correct taken s) trained trained-IsValid e))
  | inr e ↦ rw e (record {
    weights = v.weights;
    indices = v.indices;
    theta_nonneg = v.theta_nonneg;
    tc_low = v.tc_low;
    tc_high = v.tc_high;
  })
]
  where
    trained : HashedPerceptron
    trained = record s {
      tables = update_weights taken 0 s.last_result.indices s.tables;
      ghist_words = map (push_back table_index_bits taken) s.ghist_words;
    }

    trained-IsValid : IsValid trained
    trained-IsValid = record {
      weights = update_weights-IsWeight taken 0 s.last_result.indices s.tables v.weights;
      indices = v.indices;
      theta_nonneg = v.theta_nonneg;
      tc_low = v.tc_low;
      tc_high = v.tc_high;
    }
