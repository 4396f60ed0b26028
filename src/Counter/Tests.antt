-- ===== src/Counter/Tests.antt =====
-- Counters of fwcounter.h at concrete widths and values, and the theorems there.
use cs230_branch_predictor.Prelude.{◌≡◌, refl}
use cs230_branch_predictor.Prelude.Int.{pos, negsuc, ◌+ℤ◌, ◌-ℤ◌}
use cs230_branch_predictor.Counter.{fwcounter, sfwcounter, assign, add_assign, sub_assign}
use cs230_branch_predictor.Counter.Unsigned.{
  maximum, count_up, count_down, store, add_assign_unsigned,
}

add_saturates : add_assign (sfwcounter 8) (pos 120) (pos 30) ≡ pos 127
unfolding add_assign ◌+ℤ◌
add_saturates = refl

sub_saturates : sub_assign (fwcounter 2) (pos 1) (pos 3) ≡ pos 0
unfolding sub_assign ◌-ℤ◌
sub_saturates = refl

add_assign_unsigned_example :
    (add_assign (fwcounter 3) (pos 7) (pos 1) ≡ pos (count_up (maximum 3) 7))
    × (add_assign (fwcounter 3) (pos 7) (negsuc 0) ≡ pos (count_down (maximum 3) 7))
    × (sub_assign (fwcounter 3) (pos 7) (pos 1) ≡ pos (count_down (maximum 3) 7))
    × (assign (fwcounter 3) (pos 7) ≡ pos (store (maximum 3) 7))
add_assign_unsigned_example = add_assign_unsigned 3 7
