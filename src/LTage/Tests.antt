-- ===== src/LTage/Tests.antt =====
-- A loop of two iterations after three executions, from a cleared L-TAGE.
use cs230_branch_predictor.Prelude.{◌≡◌, arith, false}
use cs230_branch_predictor.Tage.{reset_info}
use cs230_branch_predictor.LoopPredictor.{reset_entry}
use cs230_branch_predictor.LTage.{LTage, initialize_branch_predictor, predict_branch}
use cs230_branch_predictor.LTage.Loops.{takens, executions, initialized-Misses, loop_is_predicted}

abbrev cleared : LTage
cleared = record {
  tage_predictor = record {
    tage_table = λ c j. record { pred = 0; tag = 0; u = 0 };
    bimodal_table = λ i. 2;
    branch_info = reset_info;
    num_branches = 0;
    phist = 0;
    ghist = λ i. false;
    use_alt_on_na = 9;
  };
  loop_predictor = record {
    loop_component = λ i j. reset_entry;
    loop_branch_info = record {
      hit = false;
      index = 0;
      way = 0;
      prediction = false;
      is_valid_loop_prediction = false;
    };
    loop_prediction = false;
  };
}

loop_is_predicted_example :
    (predict_branch
      (takens (λ t. t) 64 9 2 (executions (λ t. t) 64 2 3 (initialize_branch_predictor cleared)))
      64).1
    ≡ false
loop_is_predicted_example =
    loop_is_predicted (λ t. t) 64 2 3 2 9 0 (initialize_branch_predictor cleared) (omega arith)
      (omega arith) (omega arith) (omega arith)
      (initialized-Misses cleared 64 (λ e. absurd (omega (arith, e))))
