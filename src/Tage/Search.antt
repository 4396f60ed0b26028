-- ===== src/Tage/Search.antt =====
-- ChampSim/branch/Tage/tage.cc, `last_branch_result`: where the search for an entry starts.
use cs230_branch_predictor.Prelude.{ℕ, ◌+◌, ◌≤◌, arith, Option, none, some}
use cs230_branch_predictor.Tage.Update.{next_comp, after_provider}

-- The search starts right after the provider or one or two components later.
pub next_comp_bounds :
    (rand : ℕ) (p : Option ℕ)
    → (after_provider p ≤ next_comp rand p) × (next_comp rand p ≤ after_provider p + 2)
unfolding next_comp
next_comp_bounds rand p = ground arith

pub next_comp_pos : (rand : ℕ) (p : Option ℕ) → 1 ≤ next_comp rand p
next_comp_pos rand none = omega (arith, next_comp_bounds rand none)
next_comp_pos rand (some p) = omega (arith, next_comp_bounds rand (some p))
