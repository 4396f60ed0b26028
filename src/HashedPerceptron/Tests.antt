-- ===== src/HashedPerceptron/Tests.antt =====
-- The theorems on the hashed perceptron at a new predictor.
use cs230_branch_predictor.Prelude.{ℕ, arith, false}
use cs230_branch_predictor.Prelude.Int.{ℤ, pos}
use cs230_branch_predictor.HashedPerceptron.{fresh, predict_branch, last_branch_result}
use cs230_branch_predictor.HashedPerceptron.Laws.{
  IsValid, hashed_predict-IsValid, hashed_update-IsValid,
}

fresh-IsValid : IsValid fresh
fresh-IsValid = record {
  weights = λ i j. (omega arith, omega arith);
  indices = omega arith;
  theta_nonneg = omega arith;
  tc_low = omega arith;
  tc_high = omega arith;
}

hashed_update-IsValid_example : IsValid (last_branch_result false (predict_branch fresh 0x4001f3).0)
hashed_update-IsValid_example =
    hashed_update-IsValid false (predict_branch fresh 0x4001f3).0
      (hashed_predict-IsValid 0x4001f3 fresh fresh-IsValid)

abbrev zeros : ℕ → ℕ → ℤ
zeros i j = pos 0
