-- ===== src/LruTable/Sizes.antt =====
-- ChampSim/inc/msl/lru_table.h: which sizes the constructor accepts.
use native.Mathlib.Nat.{one-le-pow}
use cs230_branch_predictor.Prelude.{ℕ, ◌-◌, ◌^◌, ◌<◌, ◌≡◌, ◌↔◌, arith, bit_and}
use cs230_branch_predictor.Prelude.Powers.{bit_and_pred-power, power_of_bit_and_pred}
use cs230_branch_predictor.LruTable.{Projections, make, empty, ok}

-- The sizes are below 2^63 and the number of sets is a power of two.
abbrev pub IsSize : ℕ → ℕ → Type 0
IsSize sets ways = (sets < 2 ^ 63) × (ways < 2 ^ 63) × ((k : ℕ) × (sets ≡ 2 ^ k))

-- The constructor makes an empty table of the sizes that it is given exactly if each is below 2^63 and
-- the number of sets is a power of two; otherwise it throws.
pub make-ok :
    {T : Type 0} (p : Projections T) (sets ways : ℕ)
    → (make p sets ways ≡ ok (empty p sets ways)) ↔ IsSize sets ways
unfolding make
make-ok p sets ways = (
  (λ e. (ground arith, ground arith, power_of_bit_and_pred sets (ground arith) (ground arith))),
  (λ (a, b, (k, e)).
      let clear : bit_and sets (sets - 1) ≡ 0 = rw e (bit_and_pred-power k) in
      ground (arith, one-le-pow k 2)),
)
