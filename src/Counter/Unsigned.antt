-- ===== src/Counter/Unsigned.antt =====
-- ChampSim/inc/msl/fwcounter.h: a `fwcounter<WIDTH>` as the natural number of its value. Every
-- counter of the branch predictors is moved by `+= taken ? 1 : -1`, and read against half of its
-- maximum. These functions are what the operators of `Counter` do to such a counter.
use cs230_branch_predictor.Prelude.{
  ℕ, ◌+◌, ◌-◌, ◌/◌, ◌^◌, ◌≡◌, arith, min, Bool, ltb, if◌then◌else◌,
}
use cs230_branch_predictor.Prelude.Int.{pos, negsuc, ◌+ℤ◌, ◌-ℤ◌}
use cs230_branch_predictor.Counter.{fwcounter, assign, add_assign, sub_assign}

-- `maximum` of a `fwcounter<WIDTH>`
abbrev pub maximum : ℕ → ℕ
maximum width = 2 ^ width - 1

-- `counter += 1`, `counter -= 1`, and `counter = v`, by the counter's maximum.
abbrev pub count_up : ℕ → ℕ → ℕ
count_up top v = min (v + 1) top

abbrev pub count_down : ℕ → ℕ → ℕ
count_down top v = min (v - 1) top

abbrev pub store : ℕ → ℕ → ℕ
store top v = min v top

-- `counter += taken ? 1 : -1`
abbrev pub train : ℕ → Bool → ℕ → ℕ
train top taken v = if taken then count_up top v else count_down top v

-- `counter.value() > counter.maximum / 2`
abbrev pub above_half : ℕ → ℕ → Bool
above_half top v = ltb (top / 2) v

-- On a counter of any width the operators of the class, at the signed arithmetic of the source,
-- give exactly these functions.
pub add_assign_unsigned :
    (width v : ℕ)
    → (add_assign (fwcounter width) (pos v) (pos 1) ≡ pos (count_up (maximum width) v))
      × (add_assign (fwcounter width) (pos v) (negsuc 0) ≡ pos (count_down (maximum width) v))
      × (sub_assign (fwcounter width) (pos v) (pos 1) ≡ pos (count_down (maximum width) v))
      × (assign (fwcounter width) (pos v) ≡ pos (store (maximum width) v))
unfolding add_assign sub_assign assign ◌+ℤ◌ ◌-ℤ◌
add_assign_unsigned width v = ground arith
