-- ===== src/Btb/Direct.antt =====
-- ChampSim/btb/basic_btb/direct_predictor.h and direct_predictor.cc.
use cs230_branch_predictor.Prelude.{ℕ, ◌/◌, not, ◌==◌, if◌then◌else◌, Option, none, some}
use cs230_branch_predictor.Instruction.{
  BranchType, indirect, conditional, indirect_call, return_branch,
}
use cs230_branch_predictor.LruTable
use cs230_branch_predictor.LruTable.{LruTable, Projections}

-- `branch_info`
pub data BranchInfo : Type 0 where
  indirect_info return_info always_taken conditional_info : BranchInfo

abbrev pub sets : ℕ
sets = 1024

abbrev pub ways : ℕ
ways = 8

-- `btb_entry_t`
pub record BtbEntry : Type 0 where
  pub ip_tag : ℕ
  pub target : ℕ
  pub type : BranchInfo

-- `index` and `tag` are `ip_tag.slice_upper<2>()`.
abbrev pub entry_projections : Projections BtbEntry
entry_projections = record {
  set_projection = λ e. e.ip_tag / 4;
  tag_projection = λ e. e.ip_tag / 4;
  initial = record { ip_tag = 0; target = 0; type = always_taken };
}

-- The state is the table `BTB`.
abbrev pub DirectPredictor : Type 0
DirectPredictor = LruTable BtbEntry

abbrev pub start : DirectPredictor
start = LruTable.empty entry_projections sets ways

unfoldable pub check_hit : ℕ → DirectPredictor → DirectPredictor × Option BtbEntry
check_hit ip table =
    LruTable.check_hit entry_projections (record { ip_tag = ip; target = 0; type = always_taken })
      table

abbrev pub type_of : BranchType → BranchInfo
type_of indirect = indirect_info
type_of indirect_call = indirect_info
type_of return_branch = return_info
type_of conditional = conditional_info
type_of other = always_taken

-- `opt_entry` after its update, or the new entry.
abbrev pub updated_entry : ℕ → ℕ → BranchInfo → Option BtbEntry → BtbEntry
updated_entry ip branch_target type none = record {
  ip_tag = ip;
  target = branch_target;
  type = type;
}
updated_entry ip branch_target type (some entry) = record entry {
  type = type;
  target = if not (branch_target == 0) then branch_target else entry.target;
}

unfoldable pub update : ℕ → ℕ → BranchType → DirectPredictor → DirectPredictor
update ip branch_target branch_type table =
    let type = type_of branch_type in
    let (table', opt_entry) =
      LruTable.check_hit entry_projections
        (record { ip_tag = ip; target = branch_target; type = type }) table in
    if not (branch_target == 0)
    then LruTable.fill entry_projections (updated_entry ip branch_target type opt_entry) table'
    else table'
