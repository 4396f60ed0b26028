-- ===== src/LTage.antt =====
-- ChampSim/branch/LTage/ltage.cc and ltage.h: the L-TAGE predictor, TAGE with a loop predictor that
-- overrides it. The class `Tage` of ChampSim/branch/LTage/tage.h is the one of
-- ChampSim/branch/Tage, which `Tage` models.
pub mod Loops
mod Tests
use cs230_branch_predictor.Prelude.{ℕ, Bool, if◌then◌else◌}
use cs230_branch_predictor.Tage.{Tage}
use cs230_branch_predictor.Tage
use cs230_branch_predictor.LoopPredictor.{LoopPredictor}
use cs230_branch_predictor.LoopPredictor

pub record LTage : Type 0 where
  pub tage_predictor : Tage
  pub loop_predictor : LoopPredictor

unfoldable pub initialize_branch_predictor : LTage → LTage
initialize_branch_predictor s = record {
  tage_predictor = Tage.initialize_branch_predictor s.tage_predictor;
  loop_predictor = LoopPredictor.loop_predictor_init s.loop_predictor;
}

-- Both components predict; a valid prediction of the loop predictor is taken.
unfoldable pub predict_branch : LTage → ℕ → LTage × Bool
predict_branch s ip =
    let (loop', loop_prediction) = LoopPredictor.predict_branch s.loop_predictor ip in
    let (tage', tage_prediction) = Tage.Predict.predict_branch s.tage_predictor ip in
    (
      record { tage_predictor = tage'; loop_predictor = loop' },
      if loop'.loop_branch_info.is_valid_loop_prediction then loop_prediction else tage_prediction,
    )

unfoldable pub last_branch_result : ℕ → ℕ → Bool → LTage → LTage
last_branch_result rand ip taken s = record {
  tage_predictor = Tage.Update.last_branch_result rand ip taken s.tage_predictor;
  loop_predictor = LoopPredictor.last_branch_result ip taken s.loop_predictor;
}
