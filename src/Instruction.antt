-- ===== src/Instruction.antt =====
-- ChampSim/inc/instruction.h: the branch types, and how an instruction of a trace becomes an
-- `ooo_model_instr`. An instruction of either trace format is its fields.
pub mod Laws
mod Tests
use cs230_branch_predictor.Prelude.{
  ℕ, zero, suc, ◌+◌, Bool, true, false, not, ◌&&◌, ◌||◌, ltb, ◌==◌, List, [], ◌∷◌, if◌then◌else◌,
}
use cs230_branch_predictor.Prelude.Sequences.{length}

-- `branch_type`
pub data BranchType : Type 0 where
  direct_jump indirect conditional direct_call indirect_call return_branch other_branch not_branch :
      BranchType

-- ChampSim/inc/trace_instruction.h
abbrev pub reg_stack_pointer : ℕ
reg_stack_pointer = 6

abbrev pub reg_flags : ℕ
reg_flags = 25

abbrev pub reg_instruction_pointer : ℕ
reg_instruction_pointer = 26

-- `input_instr`; a `cloudsuite_instr` has the same fields and its own address space.
pub record TraceInstr : Type 0 where
  pub ip : ℕ
  pub is_branch : Bool
  pub branch_taken : Bool
  pub destination_registers : List ℕ
  pub source_registers : List ℕ
  pub destination_memory : List ℕ
  pub source_memory : List ℕ

-- The fields of `ooo_model_instr` that the constructor sets.
pub record ModelInstr : Type 0 where
  pub ip : ℕ
  pub is_branch : Bool
  pub branch_taken : Bool
  pub branch : BranchType
  pub asid : ℕ × ℕ
  pub destination_registers : List ℕ
  pub source_registers : List ℕ
  pub destination_memory : List ℕ
  pub source_memory : List ℕ

-- `std::remove_copy(..., 0)`
abbrev pub remove_zero : List ℕ → List ℕ
remove_zero [] = []
remove_zero (x ∷ xs) = let rest = remove_zero xs in if x == 0 then rest else x ∷ rest

-- `std::count` as a test, and `std::count_if` for the other registers.
abbrev pub has_register : ℕ → List ℕ → Bool
has_register r [] = false
has_register r (x ∷ xs) = x == r || has_register r xs

abbrev pub is_other : ℕ → Bool
is_other r =
    not (r == reg_stack_pointer) && not (r == reg_flags) && not (r == reg_instruction_pointer)

abbrev pub has_other : List ℕ → Bool
has_other [] = false
has_other (x ∷ xs) = is_other x || has_other xs

-- What an instruction reads and writes.
pub record Usage : Type 0 where
  pub writes_sp : Bool
  pub writes_ip : Bool
  pub reads_sp : Bool
  pub reads_flags : Bool
  pub reads_ip : Bool
  pub reads_other : Bool

abbrev pub usage_of : List ℕ → List ℕ → Usage
usage_of destination source = record {
  writes_sp = has_register reg_stack_pointer destination;
  writes_ip = has_register reg_instruction_pointer destination;
  reads_sp = has_register reg_stack_pointer source;
  reads_flags = has_register reg_flags source;
  reads_ip = has_register reg_instruction_pointer source;
  reads_other = has_other source;
}

-- The chain of tests, as the type that its branches assign.
unfoldable pub classify : Usage → BranchType
classify u =
    if not u.reads_sp && not u.reads_flags && u.writes_ip && not u.reads_other
    then direct_jump
    else if not u.reads_sp && not u.reads_ip && not u.reads_flags && u.writes_ip && u.reads_other
    then indirect
    else if not u.reads_sp
        && u.reads_ip
        && not u.writes_sp
        && u.writes_ip
        && (u.reads_flags || u.reads_other)
    then conditional
    else if u.reads_sp
        && u.reads_ip
        && u.writes_sp
        && u.writes_ip
        && not u.reads_flags
        && not u.reads_other
    then direct_call
    else if u.reads_sp
        && u.reads_ip
        && u.writes_sp
        && u.writes_ip
        && not u.reads_flags
        && u.reads_other
    then indirect_call
    else if u.reads_sp && not u.reads_ip && u.writes_sp && u.writes_ip
    then return_branch
    else if u.writes_ip
    then other_branch
    else not_branch

-- What the branches of the chain assign to `is_branch` and `branch_taken`.
abbrev pub branch_flags : BranchType → Bool → Bool → Bool × Bool
branch_flags direct_jump is_branch taken = (true, true)
branch_flags indirect is_branch taken = (true, true)
branch_flags conditional is_branch taken = (true, taken)
branch_flags direct_call is_branch taken = (true, true)
branch_flags indirect_call is_branch taken = (true, true)
branch_flags return_branch is_branch taken = (true, true)
branch_flags other_branch is_branch taken = (true, taken)
branch_flags not_branch is_branch taken = (is_branch, false)

unfoldable pub make : TraceInstr → ℕ × ℕ → ModelInstr
unfolding classify
make instr local_asid =
    let destination = remove_zero instr.destination_registers in
    let source = remove_zero instr.source_registers in
    let branch = classify (usage_of destination source) in
    let (is_branch, branch_taken) = branch_flags branch instr.is_branch instr.branch_taken in
    record {
      ip = instr.ip;
      is_branch = is_branch;
      branch_taken = branch_taken;
      branch = branch;
      asid = local_asid;
      destination_registers = destination;
      source_registers = source;
      destination_memory = remove_zero instr.destination_memory;
      source_memory = remove_zero instr.source_memory;
    }

unfoldable pub num_mem_ops : ModelInstr → ℕ
num_mem_ops instr = length instr.destination_memory + length instr.source_memory
