-- ===== src/Instruction/Tests.antt =====
-- Instructions of a trace.
use cs230_branch_predictor.Prelude.{◌≡◌, refl, true, false, [], ◌∷◌}
use cs230_branch_predictor.Instruction.{conditional, TraceInstr, Usage, make}

-- A conditional jump that reads the flags, not taken.
abbrev jump : TraceInstr
jump = record {
  ip = 0x400100;
  is_branch = true;
  branch_taken = false;
  destination_registers = 26 ∷ 0 ∷ [];
  source_registers = 26 ∷ 25 ∷ 0 ∷ 0 ∷ [];
  destination_memory = 0 ∷ 0 ∷ [];
  source_memory = 0 ∷ 0 ∷ 0 ∷ 0 ∷ [];
}

jump-conditional : (make jump (0, 0)).branch ≡ conditional
unfolding make
jump-conditional = refl

-- A return also pops the stack pointer and may read more.
abbrev ret : Usage
ret = record {
  writes_sp = true;
  writes_ip = true;
  reads_sp = true;
  reads_flags = false;
  reads_ip = false;
  reads_other = true;
}
