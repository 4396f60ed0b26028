-- ===== src/Gshare/Tests.antt =====
-- The theorems on gshare at a concrete state.
use cs230_branch_predictor.Prelude.{◌≡◌, arith, true, false}
use cs230_branch_predictor.Gshare.{Gshare, predict_branch}
use cs230_branch_predictor.Gshare.Laws.{IsValid, again, gshare_learns}

-- All counters weakly not taken, no history.
abbrev cleared : Gshare
cleared = record { branch_history_vector = 0; gs_history_table = λ i. 1 }

cleared-IsValid : IsValid cleared
cleared-IsValid = record { counters = λ i h. omega arith; history = omega arith }

gshare_learns_example :
    (predict_branch (again 0x4001f3 true 20 cleared) 0x4001f3 ≡ true)
    × (predict_branch (again 0x4001f3 false 22 cleared) 0x4001f3 ≡ false)
gshare_learns_example = gshare_learns 0x4001f3 5 cleared cleared-IsValid
