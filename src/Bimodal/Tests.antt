-- ===== src/Bimodal/Tests.antt =====
-- The theorems on the bimodal predictor at a concrete table.
use cs230_branch_predictor.Prelude.{ℕ, ◌≡◌, arith, false, not}
use cs230_branch_predictor.Bimodal.{predict_branch, last_branch_result}
use cs230_branch_predictor.Bimodal.Laws.{IsValid, outcomes, learns}

-- All counters strongly taken.
abbrev strong : ℕ → ℕ
strong i = 3

strong-IsValid : IsValid strong
strong-IsValid i h = omega arith

learns_example :
    (predict_branch (outcomes 2 0x4001f3 false strong) 0x4001f3 ≡ false)
    × (predict_branch
          (last_branch_result 0x4001f3 (not false) (outcomes 3 0x4001f3 false strong))
          0x4001f3
        ≡ false)
learns_example = learns 0x4001f3 false strong strong-IsValid
