-- ===== src/Tage/Trace.antt =====
-- ChampSim/branch/Tage: whole runs of the predictor from initialisation.
use cs230_branch_predictor.Prelude.{◌≤◌, List, [], ◌∷◌}
use cs230_branch_predictor.Tage.{Tage, use_alt_max, initialize_branch_predictor}
use cs230_branch_predictor.Tage.History.{Branch, run}
use cs230_branch_predictor.Tage.Invariant.{
  IsValid, initialize-IsValid, predict_branch-IsValid, last_branch_result-IsValid,
}

-- After initialisation and any trace of predictions and updates the state is valid: each counter
-- fits its width, each tag the width of its component, the registers their bits, and the recorded
-- provider and alternative are components in order with indices inside their tables.
pub run-IsValid :
    (s : Tage) (trace : List Branch)
    → s.use_alt_on_na ≤ use_alt_max
    → IsValid (run (initialize_branch_predictor s) trace)
run-IsValid s [] h = initialize-IsValid s h
run-IsValid s (b ∷ before) h = last_branch_result-IsValid b.rand b.ip b.taken _ (
    predict_branch-IsValid (run (initialize_branch_predictor s) before) b.ip
      (run-IsValid s before h))
