-- ===== src/VirtualMemory/Disjoint.antt =====
-- ChampSim/src/vmem.cc: when the pages that are in use are apart, and that a translation keeps them so.
use mathlib.Core.Option.{some-injective}
use cs230_branch_predictor.Prelude.{
  ℕ, ◌/◌, ◌<◌, ◌≡◌, ◌≢◌, refl, sym, ◌∙◌, arith, ◌==◌, ◌&&◌, List, ◌∷◌, Option, none, some,
  Bool-cases, inl, inr,
}
use cs230_branch_predictor.Prelude.Lists.{here, there, Contains, Distinct}
use cs230_branch_predictor.VirtualMemory.{
  Configuration, VirtualMemory, insert₂, translate, pte_pages, pte_address,
}
use cs230_branch_predictor.VirtualMemory.Address.{page_bytes}

-- The page is not free, and no virtual page is mapped to it.
abbrev pub IsTaken : VirtualMemory → ℕ → Type 0
IsTaken s p =
    (Contains p s.ppage_free_list → ⊥) × ((cpu v : ℕ) → s.vpage_to_ppage_map cpu v ≢ some p)

module _ (c : Configuration) where
  -- The entries in the page that is being filled lie below the address of the next.
  abbrev pub IsBelow : VirtualMemory → Type 0
  IsBelow s =
      (cpu level key a : ℕ)
      → s.page_table cpu level key ≡ some a
      → a / page_bytes c ≡ s.active_pte_page
      → a < pte_address c s

  -- No page is free twice, no mapped page is free, no two virtual pages are mapped to one page, and the
  -- pages of the entries of the page table and the page that it is filling are neither free nor mapped.
  -- No two entries have one address, and the next address is above those in its page.
  pub record IsSeparate (s : VirtualMemory) : Type 0 where
    pub distinct : Distinct s.ppage_free_list
    pub used :
        (cpu v p : ℕ) → s.vpage_to_ppage_map cpu v ≡ some p → Contains p s.ppage_free_list → ⊥
    pub injective :
        (cpu v cpu' v' p : ℕ)
        → s.vpage_to_ppage_map cpu v ≡ some p
        → s.vpage_to_ppage_map cpu' v' ≡ some p
        → (cpu ≡ cpu') × (v ≡ v')
    pub active : s.next_pte_page ≢ 0 → IsTaken s s.active_pte_page
    pub tables :
        (cpu level key a : ℕ) → s.page_table cpu level key ≡ some a → IsTaken s (a / page_bytes c)
    pub tables_injective :
        (cpu level key cpu' level' key' a : ℕ)
        → s.page_table cpu level key ≡ some a
        → s.page_table cpu' level' key' ≡ some a
        → (cpu ≡ cpu') × (level ≡ level') × (key ≡ key')
    pub tables_below : s.next_pte_page ≢ 0 → IsBelow s
    pub inside : s.next_pte_page < pte_pages c

  -- The first free page is mapped.
  map_front :
      (s : VirtualMemory) (cpu v p q : ℕ) (rest : List ℕ)
      → s.ppage_free_list ≡ p ∷ q ∷ rest
      → s.vpage_to_ppage_map cpu v ≡ none
      → IsSeparate s
      → IsSeparate (record s {
        vpage_to_ppage_map = insert₂ s.vpage_to_ppage_map cpu v p;
        ppage_free_list = q ∷ rest;
      })
  map_front s cpu v p q rest e missing sep = record {
    distinct = now.1;
    used = λ cpu' v' p' h free. elim (Bool-cases (cpu' == cpu && v' == v)) [
      | inl at_key ↦
          let same : p ≡ p' = some-injective p p' (rw at_key at h) in now.0 (rw same free)
      | inr other ↦ sep.used cpu' v' p' (rw other at h) (rw e (there free))
    ];
    injective = λ cpu' v' cpu'' v'' p' h k. elim (Bool-cases (cpu' == cpu && v' == v)) [
      | inl left ↦ elim (Bool-cases (cpu'' == cpu && v'' == v)) [
        | inl right ↦ ground arith
        | inr other ↦ absurd (fresh cpu'' v'' p' (rw left at h) (rw other at k))
      ]
      | inr old ↦ elim (Bool-cases (cpu'' == cpu && v'' == v)) [
        | inl right ↦ absurd (fresh cpu' v' p' (rw right at k) (rw old at h))
        | inr other ↦ sep.injective cpu' v' cpu'' v'' p' (rw old at h) (rw other at k)
      ]
    ];
    active = λ filling. kept s.active_pte_page (sep.active filling);
    tables = λ cpu' level key a h. kept (a / page_bytes c) (sep.tables cpu' level key a h);
    tables_injective = sep.tables_injective;
    tables_below = sep.tables_below;
    inside = sep.inside;
  }
    where
      now : Distinct (p ∷ q ∷ rest)
      now = rw e at sep.distinct

      first : Contains p s.ppage_free_list
      first = rw e (here refl)

      kept :
          (x : ℕ)
          → IsTaken s x
          → IsTaken
              (record s {
                vpage_to_ppage_map = insert₂ s.vpage_to_ppage_map cpu v p;
                ppage_free_list = q ∷ rest;
              })
              x
      kept x taken = (
        (λ free. taken.0 (rw e (there free))),
        (λ cpu' v' h. elim (Bool-cases (cpu' == cpu && v' == v)) [
          | inl at_key ↦ taken.0 (rw (← some-injective p x (rw at_key at h)) first)
          | inr other ↦ taken.1 cpu' v' (rw other at h)
        ]),
      )

      fresh : (cpu' v' p' : ℕ) → some p ≡ some p' → s.vpage_to_ppage_map cpu' v' ≡ some p' → ⊥
      fresh cpu' v' p' same h = sep.used cpu' v' p (h ∙ sym same) first

  pub translate-IsSeparate :
      (s : VirtualMemory) (cpu v p q : ℕ) (rest : List ℕ) (o : Option ℕ)
      → s.ppage_free_list ≡ p ∷ q ∷ rest
      → s.vpage_to_ppage_map cpu v ≡ o
      → IsSeparate s
      → IsSeparate (translate c cpu v p s o).0
  translate-IsSeparate s cpu v p q rest (some m) e h sep = sep
  translate-IsSeparate s cpu v p q rest none e h sep = rw e (map_front s cpu v p q rest e h sep)
