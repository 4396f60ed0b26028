-- ===== src/Bits/Tests.antt =====
-- The bit utilities on concrete numbers.
use cs230_branch_predictor.Prelude.{◌≡◌, refl}
use cs230_branch_predictor.Bits.{lg2}

lg2_runs : (lg2 64 4096 ≡ 12) × (lg2 64 4095 ≡ 11)
unfolding lg2
lg2_runs = (refl, refl)
