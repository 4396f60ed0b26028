-- ===== src/RegisterAllocator/Laws.antt =====
-- ChampSim/src/register_allocator.cc: the invariant of the free list and the committed mappings.
use mathlib.Core.Option.{some-injective}
use cs230_branch_predictor.Prelude.{
  ℕ, ◌<◌, ◌≡◌, ◌≢◌, refl, sym, ap, ◌∙◌, arith, true, false, ltb, ◌==◌, List, [], ◌∷◌, Option, none,
  some, update, Bool-cases, inl, inr, ◌⊎◌,
}
use cs230_branch_predictor.Prelude.Lists.{
  here, there, Contains, Distinct, Any-push_last, Any-pushed, Any-push_last_cases,
  push_last-Distinct,
}
use cs230_branch_predictor.RegisterAllocator.{
  PhysicalRegister, RegisterAllocator, dest_from, src_from, complete_dest_register, free_register,
  free_old, retire_dest_register,
}

-- The free list has each register that is not busy, once; and a register that the backend table maps
-- is busy and belongs to the architectural register that maps to it.
pub record IsValid (s : RegisterAllocator) : Type 0 where
  pub distinct : Distinct s.free_registers
  pub inside : (p : ℕ) → Contains p s.free_registers → p < s.num_physical_registers
  pub idle : (p : ℕ) → Contains p s.free_registers → (s.physical_register_file p).busy ≡ false
  pub listed :
      (p : ℕ)
      → p < s.num_physical_registers
      → (s.physical_register_file p).busy ≡ false
      → Contains p s.free_registers
  pub committed :
      (r p : ℕ)
      → s.backend_rat r ≡ some p
      → (p < s.num_physical_registers)
        × ((s.physical_register_file p).busy ≡ true)
        × ((s.physical_register_file p).arch_reg_index ≡ r)

Contains-later : (q p : ℕ) (rest : List ℕ) → Contains q (p ∷ rest) → q ≢ p → Contains q rest
Contains-later q p rest (here e) ne = absurd (ne e)
Contains-later q p rest (there c) ne = c

-- The first free register p becomes busy with the record x, for an architectural register; the
-- backend maps what it mapped, and possibly that register to p.
allocate-IsValid :
    (s : RegisterAllocator) (p reg : ℕ) (rest : List ℕ) (x : PhysicalRegister)
    (frontend backend : ℕ → Option ℕ)
    → IsValid s
    → s.free_registers ≡ p ∷ rest
    → x.busy ≡ true
    → x.arch_reg_index ≡ reg
    → ((r q : ℕ) → backend r ≡ some q → (s.backend_rat r ≡ some q) ⊎ ((r ≡ reg) × (q ≡ p)))
    → IsValid (record s {
      free_registers = rest;
      frontend_rat = frontend;
      backend_rat = backend;
      physical_register_file = update s.physical_register_file p x;
    })
allocate-IsValid s p reg rest x frontend backend v e busy arch maps = record {
  distinct = now.1;
  inside = λ q c. v.inside q (rw e (there c));
  idle = λ q c. elim (Bool-cases (q == p)) [
    | inl eq ↦ absurd (now.0 (rw (← to_eq q eq) c))
    | inr ne ↦ rw ne (v.idle q (rw e (there c)))
  ];
  listed = λ q lt free. elim (Bool-cases (q == p)) [
    | inl eq ↦ cc (rw eq at free, busy)
    | inr ne ↦ Contains-later q p rest (rw e at (v.listed q lt (rw ne at free))) (ground arith)
  ];
  committed = λ r q h. elim (maps r q h) [
    | inl old ↦ elim (Bool-cases (q == p)) [
      | inl eq ↦ cc ((v.committed r q old).1, v.idle p first, to_eq q eq)
      | inr ne ↦ rw ne (v.committed r q old)
    ]
    | inr (to_reg, to_p) ↦
        let eq : (q == p) ≡ true = ground arith in
        rw eq (rw to_p (v.inside p first), busy, arch ∙ sym to_reg)
  ];
}
  where
    now : Distinct (p ∷ rest)
    now = rw e at v.distinct

    first : Contains p s.free_registers
    first = rw e (here refl)

    to_eq : (q : ℕ) → (q == p) ≡ true → q ≡ p
    to_eq q h = ground arith

-- The result, if there is one, is a valid state.
abbrev pub OnState : {A : Type 0} → (A → RegisterAllocator) → Option A → Type 0
OnState f none = Unit
OnState f (some a) = IsValid (f a)

pub on_state :
    {A : Type 0} (f : A → RegisterAllocator) {o : Option A} {a : A}
    → OnState f o
    → o ≡ some a
    → IsValid (f a)
on_state f h e = rw e at h

pub dest-IsValid :
    (s : RegisterAllocator) (reg producer_id : ℕ) (free : List ℕ)
    → IsValid s
    → s.free_registers ≡ free
    → OnState (λ r. r.0) (dest_from reg producer_id s free)
dest-IsValid s reg producer_id [] v e = tt
dest-IsValid s reg producer_id (p ∷ rest) v e =
    let small : ltb p s.num_physical_registers ≡ true =
      ground (arith, v.inside p (rw e (here refl))) in
    rw small (allocate-IsValid s p reg rest _ _ _ v e refl refl (λ r q h. inl h))

pub src-IsValid :
    (s : RegisterAllocator) (reg : ℕ) (mapped : Option ℕ) (free : List ℕ)
    → IsValid s
    → s.free_registers ≡ free
    → OnState (λ r. r.0) (src_from reg s mapped free)
src-IsValid s reg (some p) free v e = v
src-IsValid s reg none [] v e = tt
src-IsValid s reg none (p ∷ rest) v e =
    let small : ltb p s.num_physical_registers ≡ true =
      ground (arith, v.inside p (rw e (here refl))) in
    rw small (
      allocate-IsValid s p reg rest _ _ _ v e refl refl (λ r q h. elim (Bool-cases (r == reg)) [
        | inl eq ↦ inr (ground (arith, h), ground (arith, h))
        | inr ne ↦ inl (rw ne at h)
      ]))

pub complete-IsValid :
    (s : RegisterAllocator) (physreg : ℕ)
    → IsValid s
    → OnState (λ t. t) (complete_dest_register physreg s)
unfolding complete_dest_register
complete-IsValid s physreg v = elim (Bool-cases (ltb physreg s.num_physical_registers)) [
  | inl lt ↦ rw lt (record {
    distinct = v.distinct;
    inside = v.inside;
    idle = λ q c. ground (arith, v.idle q c);
    listed = λ q lt free. v.listed q lt (ground (arith, free));
    committed = λ r q h. ground (arith, v.committed r q h);
  })
  | inr ge ↦ rw ge tt
]

-- A register is freed that is busy, and that the backend does not map.
free-IsValid :
    (s : RegisterAllocator) (p : ℕ)
    → IsValid s
    → (s.physical_register_file p).busy ≡ true
    → ((r : ℕ) → s.backend_rat r ≢ some p)
    → OnState (λ t. t) (free_register p s)
free-IsValid s p v busy unmapped = elim (Bool-cases (ltb p s.num_physical_registers)) [
  | inl lt ↦ rw lt (record {
    distinct = push_last-Distinct s.free_registers p v.distinct (λ c. cc (v.idle p c, busy));
    inside = λ q c. elim (Any-push_last_cases s.free_registers p c) [
      | inl old ↦ v.inside q old
      | inr e ↦ ground arith
    ];
    idle = λ q c. elim (Any-push_last_cases s.free_registers p c) [
      | inl old ↦ ground (arith, v.idle q old)
      | inr e ↦ ground arith
    ];
    listed = λ q lt free. elim (Bool-cases (q == p)) [
      | inl eq ↦ Any-pushed s.free_registers p (ground arith)
      | inr ne ↦ Any-push_last s.free_registers p (v.listed q lt (rw ne at free))
    ];
    committed = λ r q h. elim (Bool-cases (q == p)) [
      | inl eq ↦ absurd (unmapped r (h ∙ ap some (ground arith)))
      | inr ne ↦ rw ne (v.committed r q h)
    ];
  })
  | inr ge ↦ rw ge tt
]

-- The state after the backend table has the register that retires.
abbrev commit : RegisterAllocator → ℕ → RegisterAllocator
commit s p = record s {
  backend_rat = update s.backend_rat (s.physical_register_file p).arch_reg_index (some p);
}

commit-IsValid :
    (s : RegisterAllocator) (p : ℕ)
    → IsValid s
    → p < s.num_physical_registers
    → (s.physical_register_file p).busy ≡ true
    → IsValid (commit s p)
commit-IsValid s p v lt busy = record {
  distinct = v.distinct;
  inside = v.inside;
  idle = v.idle;
  listed = v.listed;
  committed = λ r q h. elim (Bool-cases (r == (s.physical_register_file p).arch_reg_index)) [
    | inl eq ↦
        let same : p ≡ q = some-injective p q (rw eq at h) in rw (← same) (lt, busy, ground arith)
    | inr ne ↦ v.committed r q (rw ne at h)
  ];
}

retire_from :
    (s : RegisterAllocator) (p : ℕ) (old : Option ℕ)
    → IsValid s
    → p < s.num_physical_registers
    → (s.physical_register_file p).busy ≡ true
    → s.backend_rat (s.physical_register_file p).arch_reg_index ≡ old
    → old ≢ some p
    → OnState (λ t. t) (free_old old (commit s p))
retire_from s p none v lt busy e ne = commit-IsValid s p v lt busy
retire_from s p (some q) v lt busy e ne =
    let (small, held, arch) = v.committed (s.physical_register_file p).arch_reg_index q e in
    free-IsValid (commit s p) q (commit-IsValid s p v lt busy) held (λ r h.
      elim (Bool-cases (r == (s.physical_register_file p).arch_reg_index)) [
        | inl eq ↦ ne (sym (rw eq at h))
        | inr other ↦ to_ne r _ other (sym (v.committed r q (rw other at h)).2 ∙ arch)
      ])
  where
    to_ne : (a b : ℕ) → (a == b) ≡ false → a ≢ b
    to_ne a b h = ground arith

pub retire-IsValid :
    (s : RegisterAllocator) (p : ℕ)
    → IsValid s
    → (s.physical_register_file p).busy ≡ true
    → s.backend_rat (s.physical_register_file p).arch_reg_index ≢ some p
    → OnState (λ t. t) (retire_dest_register p s)
unfolding retire_dest_register
retire-IsValid s p v busy ne = elim (Bool-cases (ltb p s.num_physical_registers)) [
  | inl lt ↦ rw lt (retire_from s p _ v (ground arith) busy refl ne)
  | inr ge ↦ rw ge tt
]
