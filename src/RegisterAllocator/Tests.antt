-- ===== src/RegisterAllocator/Tests.antt =====
-- Two physical registers, and the theorems on them.
use cs230_branch_predictor.Prelude.{◌≡◌, refl, true, false, [], ◌∷◌, some, update}
use cs230_branch_predictor.RegisterAllocator.{
  RegisterAllocator, make, rename_dest_register, retire_dest_register,
}
use cs230_branch_predictor.RegisterAllocator.Laws.{IsValid}
use cs230_branch_predictor.RegisterAllocator.Runs.{start, next, renamed_dest, retired, Run-IsValid}

-- Register 7, written by instruction 1, is mapped to the physical register 0.
abbrev renamed : RegisterAllocator
renamed = record (make 2) {
  free_registers = 1 ∷ [];
  frontend_rat = update (make 2).frontend_rat 7 (some 0);
  physical_register_file =
      update (make 2).physical_register_file 0
        (record { arch_reg_index = 7; producing_instruction_id = 1; valid = false; busy = true });
}

rename_runs : rename_dest_register 7 1 (make 2) ≡ some (renamed, 0)
unfolding rename_dest_register
rename_runs = refl

retires :
    retire_dest_register 0 renamed
    ≡ some (record renamed { backend_rat = update (make 2).backend_rat 7 (some 0) })
unfolding retire_dest_register
retires = refl

Run-IsValid_example :
    IsValid (record renamed { backend_rat = update (make 2).backend_rat 7 (some 0) })
Run-IsValid_example =
    Run-IsValid 2 (record renamed { backend_rat = update (make 2).backend_rat 7 (some 0) })
      (next (next start (renamed_dest 7 1 0 rename_runs)) (retired 0 refl (λ h. cc h) retires))
