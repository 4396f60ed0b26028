-- ===== src/Instruction/Laws.antt =====
-- ChampSim/inc/instruction.h: when an instruction is a branch, and when it is taken.
use cs230_branch_predictor.Prelude.{
  ℕ, ◌≡◌, ◌≢◌, refl, ap, ◌∙◌, arith, Bool, true, false, not, ◌&&◌, ◌||◌, List, [], ◌∷◌,
}
use cs230_branch_predictor.Instruction.{
  BranchType, direct_jump, indirect, conditional, direct_call, indirect_call, return_branch,
  other_branch, not_branch, reg_instruction_pointer, TraceInstr, remove_zero, has_register, Usage,
  usage_of, classify, branch_flags, make,
}

has_register-remove_zero :
    (r : ℕ) (xs : List ℕ) → r ≢ 0 → has_register r (remove_zero xs) ≡ has_register r xs
has_register-remove_zero r [] h = refl
has_register-remove_zero r (x ∷ xs) h = ground (arith, has_register-remove_zero r xs h)

-- A branch of these types may fall through.
abbrev pub is_decided_by_trace : BranchType → Bool
is_decided_by_trace conditional = true
is_decided_by_trace other_branch = true
is_decided_by_trace other = false

abbrev pub is_branch_type : BranchType → Bool
is_branch_type not_branch = false
is_branch_type other = true

classify-writes_ip : (u : Usage) → is_branch_type (classify u) ≡ u.writes_ip
unfolding classify
classify-writes_ip u = ground arith

flags_lem :
    (b : BranchType) (is_branch taken : Bool)
    → ((branch_flags b is_branch taken).0 ≡ (is_branch_type b || is_branch))
      × ((branch_flags b is_branch taken).1
          ≡ (is_branch_type b && (not (is_decided_by_trace b) || taken)))
flags_lem b is_branch taken = ground arith

-- An instruction of a trace is of a branch type exactly if it writes the instruction pointer; it then
-- counts as a branch, and otherwise only if the trace says so. It is taken exactly if it is of a
-- branch type and either of a type that is always taken or taken in the trace.
pub make_lem :
    (instr : TraceInstr) (asid : ℕ × ℕ)
    → let m = make instr asid in
      let writes_ip = has_register reg_instruction_pointer instr.destination_registers in
      (is_branch_type m.branch ≡ writes_ip)
      × (m.is_branch ≡ (writes_ip || instr.is_branch))
      × (m.branch_taken ≡ (writes_ip && (not (is_decided_by_trace m.branch) || instr.branch_taken)))
unfolding make
make_lem instr asid =
    let u =
      usage_of (remove_zero instr.destination_registers) (remove_zero instr.source_registers) in
    let same =
      has_register-remove_zero reg_instruction_pointer instr.destination_registers (omega arith) in
    let flags = flags_lem (classify u) instr.is_branch instr.branch_taken in
    let writes = classify-writes_ip u ∙ same in
    (
      writes,
      flags.0 ∙ ap (λ b. b || instr.is_branch) writes,
      flags.1
          ∙ ap (λ b. b && (not (is_decided_by_trace (classify u)) || instr.branch_taken)) writes,
    )

-- The pattern of registers that each type stands for, without the order of the tests.
abbrev pub fits : BranchType → Usage → Bool
fits direct_jump u = u.writes_ip && not u.reads_sp && not u.reads_flags && not u.reads_other
fits indirect u =
    u.writes_ip && not u.reads_sp && not u.reads_flags && not u.reads_ip && u.reads_other
fits conditional u =
    u.writes_ip
    && not u.reads_sp
    && not u.writes_sp
    && u.reads_ip
    && (u.reads_flags || u.reads_other)
fits direct_call u =
    u.writes_ip && u.writes_sp && u.reads_sp && u.reads_ip && not u.reads_flags && not u.reads_other
fits indirect_call u =
    u.writes_ip && u.writes_sp && u.reads_sp && u.reads_ip && not u.reads_flags && u.reads_other
fits return_branch u = u.writes_ip && u.writes_sp && u.reads_sp && not u.reads_ip
fits other_branch u = false
fits not_branch u = not u.writes_ip

-- The patterns exclude one another: an instruction that fits the pattern of a type is of that type,
-- whatever the order of the tests. So a return is recognised whether or not it reads other registers.
pub classify-fits : (b : BranchType) (u : Usage) → fits b u ≡ true → classify u ≡ b
unfolding classify
classify-fits direct_jump u h = ground arith
classify-fits b u h = ground arith
