-- ===== src/LoopPredictor/Tests.antt =====
-- The theorems on the loop predictor at concrete states.
use cs230_branch_predictor.Prelude.{◌≡◌, ◌↔◌, refl, arith, true, false}
use cs230_branch_predictor.Prelude.Search.{find_first}
use cs230_branch_predictor.LoopPredictor.{
  LoopPredictor, reset_entry, loop_predictor_init, predict_branch, tag_of,
}
use cs230_branch_predictor.LoopPredictor.Learn.{takens, executions, loop_is_learnt}
use cs230_branch_predictor.LoopPredictor.Frame.{IsValid, init_hits, init-Misses}

abbrev cleared : LoopPredictor
cleared = record {
  loop_component = λ i j. reset_entry;
  loop_branch_info = record {
    hit = false;
    index = 0;
    way = 0;
    prediction = false;
    is_valid_loop_prediction = false;
  };
  loop_prediction = false;
}

-- Two iterations, three executions, and one iteration of the fourth.
loop_is_learnt_example :
    let s' = takens 64 1 (executions 64 2 3 (loop_predictor_init cleared)) in
    ((predict_branch s' 64).1 ≡ true)
    × ((predict_branch s' 64).0.loop_branch_info.is_valid_loop_prediction ≡ true)
loop_is_learnt_example =
    loop_is_learnt 64 2 3 1 0 (loop_predictor_init cleared) (omega arith) (omega arith)
      (omega arith) (omega arith) (init-Misses cleared 64 (λ e. absurd (omega (arith, e))))

cleared-IsValid : IsValid cleared
cleared-IsValid = record {
  entries = λ i j hi hj. record {
    past = omega arith;
    curr = omega arith;
    tag = omega arith;
    confidence = omega arith;
    age = omega arith;
  };
  index_in = λ e. cc;
  way_in = λ e. cc;
}

init_hits_example :
    ((predict_branch (loop_predictor_init cleared) 9).0.loop_branch_info.hit ≡ true)
    ↔ (tag_of 9 ≡ 0)
init_hits_example = init_hits cleared 9

-- Address 9 has tag 0 and was never allocated.
hit_of_nothing : (predict_branch (loop_predictor_init cleared) 9).0.loop_branch_info.hit ≡ true
unfolding predict_branch loop_predictor_init find_first
hit_of_nothing = refl
