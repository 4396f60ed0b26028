-- ===== src/Btb/Tests.antt =====
-- The branch target buffer in its first state, and the theorem on it.
use cs230_branch_predictor.Prelude.{◌≡◌, refl, arith, true, false}
use cs230_branch_predictor.Prelude.Search.{find_first}
use cs230_branch_predictor.LruTable
use cs230_branch_predictor.LruTable.Keys.{IsValid}
use cs230_branch_predictor.Instruction.{conditional}
use cs230_branch_predictor.ReturnStack
use cs230_branch_predictor.Btb.{BasicBtb, btb_prediction, update_btb}
use cs230_branch_predictor.Btb.Indirect
use cs230_branch_predictor.Btb.Direct
use cs230_branch_predictor.Btb.Direct.{entry_projections}
use cs230_branch_predictor.Btb.Laws.{btb_learns}

abbrev fresh_btb : BasicBtb
fresh_btb = record {
  ras = ReturnStack.fresh;
  indirect_predictor = Indirect.start;
  direct = Direct.start;
}

start-IsValid : IsValid entry_projections Direct.start
start-IsValid = record {
  home = λ i valid. cc;
  unique = λ i j vi vj key. cc;
  past = λ i. omega arith;
  order = λ i j valid e. cc;
}

-- An unknown branch has no prediction.
unknown_branch : (btb_prediction 64 fresh_btb).1 ≡ (0, false)
unfolding btb_prediction Direct.check_hit LruTable.check_hit find_first
unknown_branch = refl

btb_learns_example :
    (btb_prediction 64 (update_btb 64 256 true conditional fresh_btb)).1 ≡ (256, false)
btb_learns_example =
    btb_learns 64 256 true conditional fresh_btb (omega arith) (omega arith) start-IsValid
