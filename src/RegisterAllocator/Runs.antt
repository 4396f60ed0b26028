-- ===== src/RegisterAllocator/Runs.antt =====
-- ChampSim/src/register_allocator.cc: the invariant over every sequence of operations.
use cs230_branch_predictor.Prelude.{ℕ, ◌≡◌, ◌≢◌, refl, arith, true, some}
use cs230_branch_predictor.Prelude.Lists.{counted_range, range_counted, count_from-Distinct}
use cs230_branch_predictor.RegisterAllocator.{
  RegisterAllocator, make, rename_dest_register, rename_src_register, complete_dest_register,
  retire_dest_register, reset_frontend_rat,
}
use cs230_branch_predictor.RegisterAllocator.Laws.{
  IsValid, on_state, dest-IsValid, src-IsValid, complete-IsValid, retire-IsValid,
}

-- The operations that return. A register retires that was renamed and has not retired since.
pub data Step (s : RegisterAllocator) : RegisterAllocator → Type 0 where
  renamed_dest :
      {t : RegisterAllocator} (reg producer_id p : ℕ)
      → rename_dest_register reg producer_id s ≡ some (t, p)
      → Step s t
  renamed_src :
      {t : RegisterAllocator} (reg p : ℕ) → rename_src_register reg s ≡ some (t, p) → Step s t
  completed : {t : RegisterAllocator} (p : ℕ) → complete_dest_register p s ≡ some t → Step s t
  retired :
      {t : RegisterAllocator} (p : ℕ)
      → (s.physical_register_file p).busy ≡ true
      → s.backend_rat (s.physical_register_file p).arch_reg_index ≢ some p
      → retire_dest_register p s ≡ some t
      → Step s t
  reset : Step s (reset_frontend_rat s)

pub data Run (s : RegisterAllocator) : RegisterAllocator → Type 0 where
  start : Run s s
  next : {t u : RegisterAllocator} → Run s t → Step t u → Run s u

Step-IsValid : {s t : RegisterAllocator} → Step s t → IsValid s → IsValid t
unfolding rename_dest_register rename_src_register reset_frontend_rat
Step-IsValid {s} (renamed_dest reg id p e) v =
    on_state (λ r. r.0) (dest-IsValid s reg id s.free_registers v refl) e
Step-IsValid {s} (renamed_src reg p e) v =
    on_state (λ r. r.0) (src-IsValid s reg (s.frontend_rat reg) s.free_registers v refl) e
Step-IsValid {s} (completed p e) v = on_state (λ t. t) (complete-IsValid s p v) e
Step-IsValid {s} (retired p busy ne e) v = on_state (λ t. t) (retire-IsValid s p v busy ne) e
Step-IsValid {s} reset v = record {
  distinct = v.distinct;
  inside = v.inside;
  idle = v.idle;
  listed = v.listed;
  committed = v.committed;
}

steps-IsValid : {s t : RegisterAllocator} → Run s t → IsValid s → IsValid t
steps-IsValid start v = v
steps-IsValid (next run step) v = Step-IsValid step (steps-IsValid run v)

pub make-IsValid : (n : ℕ) → IsValid (make n)
make-IsValid n = record {
  distinct = count_from-Distinct 0 n;
  inside = λ p c. let (low, high) = counted_range 0 n p c in omega arith;
  idle = λ p c. refl;
  listed = λ p lt free. range_counted 0 n p (omega arith) (omega arith);
  committed = λ r p h. cc h;
}

-- From its construction on, over every sequence of operations that return, in which a register retires
-- only while it is busy and not already committed: the free list has each register that is not busy,
-- once, and nothing else; and each committed mapping is to a busy register that belongs to it.
pub Run-IsValid : (n : ℕ) (s : RegisterAllocator) → Run (make n) s → IsValid s
Run-IsValid n s run = steps-IsValid run (make-IsValid n)
