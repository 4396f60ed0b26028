-- ===== src/RegisterAllocator/Renaming.antt =====
-- ChampSim/src/register_allocator.cc: what a renamed register is mapped to, and when renaming fails.
use mathlib.Core.Option.{some-injective}
use mathlib.Core.Path.{subst}
use cs230_branch_predictor.Prelude.{
  ℕ, ◌≡◌, ◌↔◌, refl, arith, true, false, ltb, List, [], ◌∷◌, Option, none, some, is_some,
  Bool-cases, inl, inr, update,
}
use cs230_branch_predictor.Prelude.Sequences.{length}
use cs230_branch_predictor.Prelude.Lists.{here}
use cs230_branch_predictor.RegisterAllocator.{
  RegisterAllocator, dest_from, src_from, rename_dest_register, rename_src_register,
  complete_dest_register, register_valid, is_allocated, count_free_registers,
}
use cs230_branch_predictor.RegisterAllocator.Laws.{IsValid}

-- The register p is in flight for reg: a source reg is renamed to p with no change, p is not valid,
-- and becomes valid when it completes.
pub record IsInFlight (reg p : ℕ) (t : RegisterAllocator) : Type 0 where
  pub source : rename_src_register reg t ≡ some (t, p)
  pub waiting : register_valid p t ≡ some false
  pub done :
      (u : RegisterAllocator) × (complete_dest_register p t ≡ some u)
      × (register_valid p u ≡ some true)
      × (rename_src_register reg u ≡ some (u, p))

allocated-IsInFlight :
    (s : RegisterAllocator) (reg id p : ℕ) (rest : List ℕ)
    → ltb p s.num_physical_registers ≡ true
    → IsInFlight reg p (record s {
      free_registers = rest;
      frontend_rat = update s.frontend_rat reg (some p);
      physical_register_file = update s.physical_register_file p (record {
        arch_reg_index = reg;
        producing_instruction_id = id;
        valid = false;
        busy = true;
      });
    })
unfolding rename_src_register complete_dest_register
allocated-IsInFlight s reg id p rest small = record {
  source = ground arith;
  waiting = rw small (ground arith);
  done = rw small (_, refl, rw small (ground arith), ground arith);
}

dest-IsInFlight :
    (s : RegisterAllocator) (reg id : ℕ) (free : List ℕ) (r : RegisterAllocator × ℕ)
    → dest_from reg id s free ≡ some r
    → IsInFlight reg r.1 r.0
dest-IsInFlight s reg id [] r e = cc e
dest-IsInFlight s reg id (p ∷ rest) r e = elim (Bool-cases (ltb p s.num_physical_registers)) [
  | inl small ↦
      subst (λ r. IsInFlight reg r.1 r.0) (some-injective _ r (rw small at e))
        (allocated-IsInFlight s reg id p rest small)
  | inr large ↦ cc (rw large at e)
]

-- After a destination register is renamed, a source register of that number is renamed to the same
-- physical register with no change of the state; that register is not valid, and when its producer
-- completes it is valid and the source is still renamed to it.
pub rename_dest-IsInFlight :
    (s : RegisterAllocator) (reg id : ℕ) (r : RegisterAllocator × ℕ)
    → rename_dest_register reg id s ≡ some r
    → IsInFlight reg r.1 r.0
unfolding rename_dest_register
rename_dest-IsInFlight s reg id r e = dest-IsInFlight s reg id s.free_registers r e

dest_fails :
    (s : RegisterAllocator) (reg id : ℕ) (free : List ℕ)
    → IsValid s
    → s.free_registers ≡ free
    → (dest_from reg id s free ≡ none) ↔ (length free ≡ 0)
dest_fails s reg id [] v e = (λ h. refl, λ h. refl)
dest_fails s reg id (p ∷ rest) v e =
    let small : ltb p s.num_physical_registers ≡ true =
      ground (arith, v.inside p (rw e (here refl))) in
    rw small (λ h. cc h, λ h. absurd (omega arith))

src_fails :
    (s : RegisterAllocator) (reg : ℕ) (mapped : Option ℕ) (free : List ℕ)
    → IsValid s
    → s.free_registers ≡ free
    → (src_from reg s mapped free ≡ none) ↔ ((is_some mapped ≡ false) × (length free ≡ 0))
src_fails s reg (some p) free v e = (λ h. cc h, λ h. cc (h.0))
src_fails s reg none [] v e = (λ h. (refl, refl), λ h. refl)
src_fails s reg none (p ∷ rest) v e =
    let small : ltb p s.num_physical_registers ≡ true =
      ground (arith, v.inside p (rw e (here refl))) in
    rw small (λ h. cc h, λ h. absurd (omega (arith, h.1)))

-- In a valid state, renaming a destination register fails exactly if no register is free, and renaming
-- a source register exactly if it is not allocated and no register is free.
pub rename_fails :
    (s : RegisterAllocator) (reg id : ℕ)
    → IsValid s
    → ((rename_dest_register reg id s ≡ none) ↔ (count_free_registers s ≡ 0))
      × ((rename_src_register reg s ≡ none)
          ↔ ((is_allocated reg s ≡ false) × (count_free_registers s ≡ 0)))
unfolding rename_dest_register rename_src_register
rename_fails s reg id v = (
  dest_fails s reg id s.free_registers v refl,
  src_fails s reg (s.frontend_rat reg) s.free_registers v refl,
)
