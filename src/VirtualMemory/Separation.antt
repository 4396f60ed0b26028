-- ===== src/VirtualMemory/Separation.antt =====
-- ChampSim/src/vmem.cc: until the free list is filled again, no physical page is given away twice, and
-- no two entries of the page table share memory.
use mathlib.Core.Option.{some-injective}
use cs230_branch_predictor.Prelude.{
  ℕ, ◌+◌, ◌/◌, ◌≤◌, ◌<◌, Bool, ◌≡◌, refl, arith, ◌==◌, ◌&&◌, List, [], ◌∷◌, Option, none, some,
  Bool-cases, inl, inr,
}
use cs230_branch_predictor.Prelude.Options.{Returns}
use cs230_branch_predictor.Prelude.Sequences.{length}
use cs230_branch_predictor.Prelude.Lists.{here, there, Contains, Distinct}
use cs230_branch_predictor.VirtualMemory.{
  Configuration, VirtualMemory, make, shuffle_pages, populate_pages, available_ppages, ppage_front,
  translate, va_to_pa, walk, get_pte_pa, pte_key, pte_address,
}
use cs230_branch_predictor.VirtualMemory.Address.{
  page_bytes, pte_bytes_pos, pte_pages_pos, pte_address-page, next_inside, next_advances,
}
use cs230_branch_predictor.VirtualMemory.Disjoint.{
  IsTaken, IsBelow, IsSeparate, translate-IsSeparate,
}

module _ (c : Configuration) where
  -- The first free page becomes the page that the page table fills: no entry lies in it.
  activate-IsSeparate :
      (s : VirtualMemory) (p q : ℕ) (rest : List ℕ)
      → s.ppage_free_list ≡ p ∷ q ∷ rest
      → s.next_pte_page ≡ 0
      → IsSeparate c s
      → let t = record s { active_pte_page = p; ppage_free_list = q ∷ rest } in
        IsSeparate c t × IsTaken t p × IsBelow c t
  activate-IsSeparate s p q rest e new sep =
      let now : Distinct (p ∷ q ∷ rest) = rw e at sep.distinct in
      let t = record s { active_pte_page = p; ppage_free_list = q ∷ rest } in
      let first : Contains p s.ppage_free_list = rw e (here refl) in
      let taken : IsTaken t p = (now.0, λ cpu v h. sep.used cpu v p h first) in
      (
        record {
          distinct = now.1;
          used = λ cpu v p' h free. sep.used cpu v p' h (rw e (there free));
          injective = sep.injective;
          active = λ filling. taken;
          tables = λ cpu level key a h.
              let old = sep.tables cpu level key a h in
              ((λ free. old.0 (rw e (there free))), old.1);
          tables_injective = sep.tables_injective;
          tables_below = λ filling. absurd (filling new);
          inside = sep.inside;
        },
        taken,
        (λ cpu level key a h same. absurd ((sep.tables cpu level key a h).0 (rw same first))),
      )

  -- The address of the next page of the page table is above this one.
  pte_address-advances :
      (s : VirtualMemory)
      → pte_address c s < pte_address c (record s { next_pte_page = s.next_pte_page + 1 })
  pte_address-advances s = grind (arith, pte_bytes_pos c)

  walk-IsSeparate :
      (cpu v level : ℕ) (s : VirtualMemory) (o : Option ℕ)
      → s.page_table cpu level (pte_key c v level) ≡ o
      → IsSeparate c s
      → IsTaken s s.active_pte_page
      → IsBelow c s
      → IsSeparate c (walk c cpu v level s o).0
  walk-IsSeparate cpu v level s (some a) e sep taken below = sep
  walk-IsSeparate cpu v level s none e sep taken below = record {
    distinct = sep.distinct;
    used = sep.used;
    injective = sep.injective;
    active = λ filling. taken;
    tables = λ cpu' level' key' a h. elim (Bool-cases (at_key cpu' level' key')) [
      | inl same ↦
          let page : a / page_bytes c ≡ s.active_pte_page =
            rw (← some-injective (pte_address c s) a (rw same at h)) address in
          rw page taken
      | inr other ↦ sep.tables cpu' level' key' a (rw other at h)
    ];
    tables_injective = λ cpu' level' key' cpu'' level'' key'' a h k.
        elim (Bool-cases (at_key cpu' level' key')) [
          | inl left ↦ elim (Bool-cases (at_key cpu'' level'' key'')) [
            | inl right ↦ ground arith
            | inr other ↦ absurd (fresh cpu'' level'' key'' a (rw left at h) (rw other at k))
          ]
          | inr old ↦ elim (Bool-cases (at_key cpu'' level'' key'')) [
            | inl right ↦ absurd (fresh cpu' level' key' a (rw right at k) (rw old at h))
            | inr other ↦
                sep.tables_injective cpu' level' key' cpu'' level'' key'' a (rw old at h)
                  (rw other at k)
          ]
        ];
    tables_below = λ filling cpu' level' key' a h same.
        let advanced = next_advances c s.next_pte_page sep.inside filling in
        let further = pte_address-advances s in
        elim (Bool-cases (at_key cpu' level' key')) [
          | inl new ↦
              let here_now = some-injective (pte_address c s) a (rw new at h) in
              rw advanced (omega (arith, further, here_now))
          | inr other ↦
              rw advanced (omega (arith, further, below cpu' level' key' a (rw other at h) same))
        ];
    inside = next_inside c s.next_pte_page;
  }
    where
      at_key : ℕ → ℕ → ℕ → Bool
      at_key cpu' level' key' = cpu' == cpu && level' == level && key' == pte_key c v level

      address : pte_address c s / page_bytes c ≡ s.active_pte_page
      address = pte_address-page c s sep.inside

      fresh :
          (cpu' level' key' a : ℕ)
          → some (pte_address c s) ≡ some a
          → s.page_table cpu' level' key' ≡ some a
          → ⊥
      fresh cpu' level' key' a same h =
          let here_now = some-injective (pte_address c s) a same in
          let page : a / page_bytes c ≡ s.active_pte_page = rw (← here_now) address in
          absurd (omega (arith, below cpu' level' key' a h page, here_now))

  -- A shuffle of distinct pages leaves distinct pages.
  pub make-IsSeparate : Distinct (shuffle_pages c (populate_pages c)) → IsSeparate c (make c)
  make-IsSeparate distinct = record {
    distinct = distinct;
    used = λ cpu v p h free. cc h;
    injective = λ cpu v cpu' v' p h k. cc h;
    active = λ filling. absurd (filling refl);
    tables = λ cpu level key a h. cc h;
    tables_injective = λ cpu level key cpu' level' key' a h k. cc h;
    tables_below = λ filling. absurd (filling refl);
    inside = pte_pages_pos c;
  }

  -- The operation returns, and its state is separate.
  abbrev pub KeepsSeparate : Option (VirtualMemory × (ℕ × ℕ)) → Type 0
  KeepsSeparate o = Returns (λ r. IsSeparate c r.0) o

  va-IsSeparate :
      (s : VirtualMemory) (cpu v : ℕ) (pages : List ℕ)
      → s.ppage_free_list ≡ pages
      → 2 ≤ length pages
      → IsSeparate c s
      → KeepsSeparate (va_to_pa c cpu v s)
  unfolding va_to_pa
  va-IsSeparate s cpu v [] e h sep = absurd (omega arith)
  va-IsSeparate s cpu v (p ∷ []) e h sep = absurd (omega arith)
  va-IsSeparate s cpu v (p ∷ q ∷ rest) e h sep =
      let front : ppage_front c s ≡ some p = rw e refl in
      (
        translate c cpu v p s (s.vpage_to_ppage_map cpu v),
        rw front refl,
        translate-IsSeparate c s cpu v p q rest _ e refl sep,
      )

  pte-IsSeparate :
      (s : VirtualMemory) (cpu v level : ℕ) (pages : List ℕ)
      → s.ppage_free_list ≡ pages
      → 2 ≤ length pages
      → IsSeparate c s
      → KeepsSeparate (get_pte_pa c cpu v level s)
  unfolding get_pte_pa
  pte-IsSeparate s cpu v level [] e h sep = absurd (omega arith)
  pte-IsSeparate s cpu v level (p ∷ []) e h sep = absurd (omega arith)
  pte-IsSeparate s cpu v level (p ∷ q ∷ rest) e h sep = elim (Bool-cases (s.next_pte_page == 0)) [
    | inl new ↦
        let t = record s { active_pte_page = p; ppage_free_list = q ∷ rest } in
        let (sep', taken, below) = activate-IsSeparate s p q rest e (ground arith) sep in
        (
          walk c cpu v level t (t.page_table cpu level (pte_key c v level)),
          rw (new, e) refl,
          walk-IsSeparate cpu v level t _ refl sep' taken below,
        )
    | inr old ↦ (
      walk c cpu v level s (s.page_table cpu level (pte_key c v level)),
      rw old refl,
      walk-IsSeparate cpu v level s _ refl sep (sep.active (ground arith))
          (sep.tables_below (ground arith)),
    )
  ]

  -- While at least two pages are free, a translation and a page walk step return and give nothing away
  -- twice: no mapped page is free, no two virtual pages share a page, no page that holds an entry of
  -- the page table, nor the one that is being filled, is free or mapped, and no two entries of the page
  -- table have the same address.
  pub operations-IsSeparate :
      (s : VirtualMemory) (cpu v level : ℕ)
      → 2 ≤ available_ppages c s
      → IsSeparate c s
      → KeepsSeparate (va_to_pa c cpu v s) × KeepsSeparate (get_pte_pa c cpu v level s)
  operations-IsSeparate s cpu v level h sep = (
    va-IsSeparate s cpu v s.ppage_free_list refl h sep,
    pte-IsSeparate s cpu v level s.ppage_free_list refl h sep,
  )
