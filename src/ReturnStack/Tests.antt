-- ===== src/ReturnStack/Tests.antt =====
-- The return stack on an empty stack.
use cs230_branch_predictor.Prelude.{◌+◌, ◌≡◌, arith}
use cs230_branch_predictor.ReturnStack.{
  fresh, prediction, push, calibrate_call_size, calibrated_return,
}

calibrated_return_example :
    (prediction (push 0x400100 (calibrate_call_size (0x400100 + 5) (push 0x400100 fresh)))).0
    ≡ 0x400100 + 5
calibrated_return_example = calibrated_return 0x400100 5 fresh (omega arith) (omega arith)
