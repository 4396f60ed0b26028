-- ===== src/RegisterAllocator.antt =====
-- ChampSim/inc/register_allocator.h and ChampSim/src/register_allocator.cc: the register renaming of
-- the core. A table entry of -1, no mapping, is `none`. What a function does with an empty queue (the
-- assertion of `rename_dest_register` fails, and `front` of `rename_src_register` is undefined) or
-- with a number past the register file (`at` throws) is `none`.
pub mod Laws
pub mod Runs
pub mod Renaming
mod Tests
use cs230_branch_predictor.Prelude.{
  ℕ, zero, suc, ◌+◌, Bool, true, false, not, ltb, List, [], ◌∷◌, Option, none, some, if◌then◌else◌,
  update, is_some, ◌>>=◌,
}
use cs230_branch_predictor.Prelude.Sequences.{length, push_last}
use cs230_branch_predictor.Prelude.Lists.{count_from}

-- `physical_register`
pub record PhysicalRegister : Type 0 where
  pub arch_reg_index : ℕ
  pub producing_instruction_id : ℕ
  pub valid : Bool
  pub busy : Bool

pub record RegisterAllocator : Type 0 where
  pub frontend_rat : ℕ → Option ℕ
  pub backend_rat : ℕ → Option ℕ
  pub free_registers : List ℕ
  pub physical_register_file : ℕ → PhysicalRegister
  pub num_physical_registers : ℕ

abbrev pub make : ℕ → RegisterAllocator
make num_physical_registers = record {
  frontend_rat = λ r. none;
  backend_rat = λ r. none;
  free_registers = count_from 0 num_physical_registers;
  physical_register_file =
      λ p. record { arch_reg_index = 0; producing_instruction_id = 0; valid = false; busy = false };
  num_physical_registers = num_physical_registers;
}

-- The register file with a new record, where `at` finds the register.
abbrev pub write_file : ℕ → PhysicalRegister → RegisterAllocator → Option RegisterAllocator
write_file p x s =
    if ltb p s.num_physical_registers
    then some (record s { physical_register_file = update s.physical_register_file p x })
    else none

abbrev pub dest_from : ℕ → ℕ → RegisterAllocator → List ℕ → Option (RegisterAllocator × ℕ)
dest_from reg producer_id s [] = none
dest_from reg producer_id s (p ∷ rest) = do
  s' ←
      write_file p
        (record {
          arch_reg_index = reg;
          producing_instruction_id = producer_id;
          valid = false;
          busy = true;
        })
        (record s { free_registers = rest; frontend_rat = update s.frontend_rat reg (some p) })
  some (s', p)

unfoldable pub rename_dest_register : ℕ → ℕ → RegisterAllocator → Option (RegisterAllocator × ℕ)
rename_dest_register reg producer_id s = dest_from reg producer_id s s.free_registers

abbrev pub src_from : ℕ → RegisterAllocator → Option ℕ → List ℕ → Option (RegisterAllocator × ℕ)
src_from reg s (some p) free = some (s, p)
src_from reg s none [] = none
src_from reg s none (p ∷ rest) = do
  s' ←
      write_file p
        (record { arch_reg_index = reg; producing_instruction_id = 0; valid = true; busy = true })
        (record s {
          free_registers = rest;
          frontend_rat = update s.frontend_rat reg (some p);
          backend_rat = update s.backend_rat reg (some p);
        })
  some (s', p)

unfoldable pub rename_src_register : ℕ → RegisterAllocator → Option (RegisterAllocator × ℕ)
rename_src_register reg s = src_from reg s (s.frontend_rat reg) s.free_registers

unfoldable pub complete_dest_register : ℕ → RegisterAllocator → Option RegisterAllocator
complete_dest_register physreg s =
    write_file physreg (record (s.physical_register_file physreg) { valid = true }) s

-- `free_register`
abbrev pub free_register : ℕ → RegisterAllocator → Option RegisterAllocator
free_register physreg s = do
  s' ←
      write_file physreg
        (record { arch_reg_index = 255; producing_instruction_id = 0; valid = false; busy = false })
        s
  some (record s' { free_registers = push_last s'.free_registers physreg })

abbrev pub free_old : Option ℕ → RegisterAllocator → Option RegisterAllocator
free_old none s = some s
free_old (some old_phys_reg) s = free_register old_phys_reg s

unfoldable pub retire_dest_register : ℕ → RegisterAllocator → Option RegisterAllocator
retire_dest_register physreg s =
    let arch_reg = (s.physical_register_file physreg).arch_reg_index in
    if ltb physreg s.num_physical_registers
    then free_old (s.backend_rat arch_reg)
        (record s { backend_rat = update s.backend_rat arch_reg (some physreg) })
    else none

-- `isValid`, `isAllocated` and `count_free_registers`.
abbrev pub register_valid : ℕ → RegisterAllocator → Option Bool
register_valid physreg s =
    if ltb physreg s.num_physical_registers
    then some (s.physical_register_file physreg).valid
    else none

abbrev pub is_allocated : ℕ → RegisterAllocator → Bool
is_allocated archreg s = is_some (s.frontend_rat archreg)

abbrev pub count_free_registers : RegisterAllocator → ℕ
count_free_registers s = length s.free_registers

-- `count_reg_dependencies`, of the source registers of an instruction.
abbrev pub count_reg_dependencies : List ℕ → RegisterAllocator → Option ℕ
count_reg_dependencies [] s = some 0
count_reg_dependencies (reg ∷ rest) s = do
  ready ← register_valid reg s
  others ← count_reg_dependencies rest s
  some (if not ready then others + 1 else others)

unfoldable pub reset_frontend_rat : RegisterAllocator → RegisterAllocator
reset_frontend_rat s = record s { frontend_rat = s.backend_rat }
