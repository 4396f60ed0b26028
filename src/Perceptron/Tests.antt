-- ===== src/Perceptron/Tests.antt =====
-- The theorems on the perceptron predictor at a cleared predictor.
use cs230_branch_predictor.Prelude.{
  ℕ, ◌≡◌, refl, arith, Bool, true, false, [], ◌+◌, ◌==◌, ◌||◌, inr,
}
use cs230_branch_predictor.Prelude.Int.{pos, ◌-ℤ◌}
use cs230_branch_predictor.Counter.Training.{room}
use cs230_branch_predictor.Perceptron.{
  InternalPerceptron, Perceptron, predict, update_perceptron, predict_branch, last_branch_result,
  predicted_state,
}
use cs230_branch_predictor.Perceptron.Laws.{IsValid}
use cs230_branch_predictor.Perceptron.Training.{movable, moved, update_perceptron-moved}
use cs230_branch_predictor.Perceptron.Speculation.{
  Run, start, later, fetch, resolve, IsSpeculative, Run-IsSpeculative,
}

abbrev zero_weights : InternalPerceptron
zero_weights = record { bias = pos 0; weights = λ i. pos 0 }

abbrev cleared : Perceptron
cleared = record {
  perceptrons = λ i. zero_weights;
  perceptron_state_buf = [];
  spec_global_history = λ i. false;
  global_history = λ i. false;
}

-- With nothing learnt the prediction is taken.
cleared_prediction : (predict_branch cleared 7).1 ≡ true
unfolding predict_branch predict ◌-ℤ◌
cleared_prediction = refl

cleared-IsValid : IsValid cleared
cleared-IsValid = record {
  perceptrons =
      λ i. record { bias = (omega arith, omega arith); weights = λ j. (omega arith, omega arith) };
  pending = omega arith;
}

abbrev alternating : ℕ → Bool
alternating i = i == 1 || i == 3

update_perceptron-moved_example :
    predict (update_perceptron false alternating zero_weights) alternating
    ≡ moved false
        (predict zero_weights alternating)
        (room false (pos 0) + movable false alternating zero_weights 24 0)
update_perceptron-moved_example =
    update_perceptron-moved false alternating zero_weights (omega arith, omega arith)
      (λ j. (omega arith, omega arith))

-- All 25 move.
all_movable : room false (pos 0) + movable false alternating zero_weights 24 0 ≡ 25
all_movable = refl

abbrev fetched : Perceptron
fetched = (predict_branch cleared 7).0

-- The only pending branch is resolved against its prediction.
mispredicted : Run cleared (last_branch_result 7 false fetched)
unfolding predict_branch
mispredicted =
    later (later start (fetch 7 (omega arith)))
      (resolve (predicted_state cleared 7) [] false refl (inr refl))

Run-IsSpeculative_example : IsSpeculative (last_branch_result 7 false fetched)
Run-IsSpeculative_example =
    Run-IsSpeculative cleared (last_branch_result 7 false fetched) mispredicted refl
