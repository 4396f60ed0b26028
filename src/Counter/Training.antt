-- ===== src/Counter/Training.antt =====
-- ChampSim/inc/msl/fwcounter.h: a signed weight of 8 bits that is trained for an outcome, as the
-- perceptron predictors do.
use cs230_branch_predictor.Prelude.{ℕ, ◌+◌, ◌≡◌, arith, Bool, true, false, if◌then◌else◌}
use cs230_branch_predictor.Prelude.Int.{
  ℤ, pos, negsuc, pos_part, neg_part, ◌+ℤ◌, ◌≤ℤ◌, +ℤ_parts, +ℤ_mono, eq_ℤ,
}
use cs230_branch_predictor.Counter.{sfwcounter, add_assign}
use cs230_branch_predictor.Counter.Laws.{IsBounded, clamp-IsBounded}

-- A weight is between -128 and 127.
abbrev pub IsWeight : ℤ → Type 0
IsWeight w = IsBounded (sfwcounter 8) w

abbrev pub trained : Bool → ℤ → ℤ
trained taken w = add_assign (sfwcounter 8) w (if taken then pos 1 else negsuc 0)

-- b is no further from the outcome than a.
abbrev pub Towards : Bool → ℤ → ℤ → Type 0
Towards true a b = a ≤ℤ b
Towards false a b = b ≤ℤ a

-- One weight moves towards the outcome, if it was in range.
pub trained-Towards : (taken : Bool) (w : ℤ) → IsWeight w → Towards taken w (trained taken w)
unfolding add_assign
trained-Towards true w h = ground (arith, +ℤ_parts w (pos 1))
trained-Towards false w h = ground (arith, +ℤ_parts w (negsuc 0))

pub add-Towards :
    (taken : Bool) (a a' b b' : ℤ)
    → Towards taken a a'
    → Towards taken b b'
    → Towards taken (a +ℤ b) (a' +ℤ b')
add-Towards true a a' b b' h k = +ℤ_mono a a' b b' h k
add-Towards false a a' b b' h k = +ℤ_mono a' a b' b h k

pub trained-IsWeight : (taken : Bool) (w : ℤ) → IsWeight (trained taken w)
unfolding add_assign
trained-IsWeight taken w =
    clamp-IsBounded (sfwcounter 8) (w +ℤ (if taken then pos 1 else negsuc 0)) (omega arith)

-- How far a training step moves a weight: by 1, but not past its bound in that direction.
abbrev pub room : Bool → ℤ → ℕ
room true w = if eq_ℤ w (pos 127) then 0 else 1
room false w = if eq_ℤ w (negsuc 127) then 0 else 1

-- b is a moved by n towards the outcome.
abbrev pub IsMoved : Bool → ℕ → ℤ → ℤ → Type 0
IsMoved true n a b = pos_part a + n + neg_part b ≡ pos_part b + neg_part a
IsMoved false n a b = pos_part b + n + neg_part a ≡ pos_part a + neg_part b

pub trained-IsMoved :
    (taken : Bool) (w : ℤ) → IsWeight w → IsMoved taken (room taken w) w (trained taken w)
unfolding add_assign
trained-IsMoved true w h = ground (arith, +ℤ_parts w (pos 1))
trained-IsMoved false w h = ground (arith, +ℤ_parts w (negsuc 0))
