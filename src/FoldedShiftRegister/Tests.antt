-- ===== src/FoldedShiftRegister/Tests.antt =====
-- The register with words of 12 bits, and the theorems on it at a history of 16 bits.
use cs230_branch_predictor.Prelude.{◌+◌, ◌*◌, ◌%◌, ◌^◌, ◌≡◌, refl, arith, true}
use cs230_branch_predictor.FoldedShiftRegister.{
  FoldedShiftRegister, make, push_back, value, bitmask, shift_and_apply_lsb,
}
use cs230_branch_predictor.FoldedShiftRegister.Refine.{
  IsRegister, history, make-IsRegister, push_back_refines,
}

abbrev empty : FoldedShiftRegister
empty = make 12 16

push_back_refines_example :
    IsRegister 12 16 (push_back 12 true empty)
    × (history 12 (push_back 12 true empty) ≡ (history 12 empty * 2 + 1) % 2 ^ 16)
push_back_refines_example =
    push_back_refines 12 (omega arith) (omega arith) 16 true empty
      (make-IsRegister 12 (omega arith) (omega arith) 16).0

value_pushed : value 12 (push_back 12 true empty) ≡ 1
unfolding value push_back make bitmask shift_and_apply_lsb
value_pushed = refl
