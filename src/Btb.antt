-- ===== src/Btb.antt =====
-- ChampSim/btb/basic_btb: the branch target buffer, a direct predictor over an LRU table, an indirect
-- predictor and the return stack of `ReturnStack`.
pub mod Direct
pub mod Indirect
pub mod Laws
mod Tests
use cs230_branch_predictor.Prelude.{ℕ, Bool, true, false, not, if◌then◌else◌, Option, none, some}
use cs230_branch_predictor.Instruction.{
  BranchType, direct_jump, indirect, conditional, direct_call, indirect_call, return_branch,
  other_branch, not_branch,
}
use cs230_branch_predictor.ReturnStack
use cs230_branch_predictor.ReturnStack.{ReturnStack}
use Direct.{BtbEntry, BranchInfo, DirectPredictor}
use Indirect.{IndirectPredictor}

pub record BasicBtb : Type 0 where
  pub ras : ReturnStack
  pub indirect_predictor : IndirectPredictor
  pub direct : DirectPredictor

-- The predictions by the type of the entry.
abbrev pub entry_prediction : BasicBtb → ℕ → BtbEntry → BranchInfo → ℕ × Bool
entry_prediction s ip entry BranchInfo.return_info = ReturnStack.prediction s.ras
entry_prediction s ip entry BranchInfo.indirect_info = Indirect.prediction ip s.indirect_predictor
entry_prediction s ip entry BranchInfo.always_taken = (entry.target, true)
entry_prediction s ip entry BranchInfo.conditional_info = (entry.target, false)

abbrev pub prediction_of : BasicBtb → ℕ → Option BtbEntry → ℕ × Bool
prediction_of s ip none = (0, false)
prediction_of s ip (some entry) = entry_prediction s ip entry entry.type

-- A prediction uses the entry that it finds.
unfoldable pub btb_prediction : ℕ → BasicBtb → BasicBtb × (ℕ × Bool)
btb_prediction ip s =
    let (direct', btb_entry) = Direct.check_hit ip s.direct in
    let s' = record s { direct = direct' } in (s', prediction_of s' ip btb_entry)

abbrev pub is_call : BranchType → Bool
is_call direct_call = true
is_call indirect_call = true
is_call other = false

abbrev pub is_indirect : BranchType → Bool
is_indirect indirect = true
is_indirect indirect_call = true
is_indirect other = false

abbrev pub is_conditional : BranchType → Bool
is_conditional conditional = true
is_conditional other = false

abbrev pub is_return : BranchType → Bool
is_return return_branch = true
is_return other = false

-- The stages of `update_btb`, each guarded by the type.
unfoldable pub update_btb : ℕ → ℕ → Bool → BranchType → BasicBtb → BasicBtb
update_btb ip branch_target taken branch_type s =
    let pushed = if is_call branch_type then ReturnStack.push ip s.ras else s.ras in
    let targeted =
      if is_indirect branch_type
      then Indirect.update_target ip branch_target s.indirect_predictor
      else s.indirect_predictor in
    record {
      ras =
          if is_return branch_type
          then ReturnStack.calibrate_call_size branch_target pushed
          else pushed;
      indirect_predictor =
          if is_conditional branch_type then Indirect.update_direction taken targeted else targeted;
      direct = Direct.update ip branch_target branch_type s.direct;
    }
