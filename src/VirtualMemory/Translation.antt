-- ===== src/VirtualMemory/Translation.antt =====
-- ChampSim/src/vmem.cc: a translation returns, and is found again.
use mathlib.Core.Option.{some-injective}
use mathlib.Core.Path.{subst}
use cs230_branch_predictor.Prelude.{
  ℕ, ◌≤◌, ◌≡◌, refl, arith, ◌==◌, List, [], ◌∷◌, Option, none, some, Bool-cases, inl, inr,
}
use cs230_branch_predictor.Prelude.Sequences.{length}
use cs230_branch_predictor.VirtualMemory.{
  Configuration, VirtualMemory, populate_pages, shuffle_pages, available_ppages, popped, ppage_pop,
  front_of, translate, va_to_pa, next_active, pte_key, walk, get_pte_pa, get_page_offset,
  splice_offset,
}

module _ (c : Configuration) where
  -- The memory has a page, and the shuffle keeps the number of pages.
  abbrev pub IsPopulated : Type 0
  IsPopulated = 1 ≤ length (shuffle_pages c (populate_pages c))

  popped_available : (pages : List ℕ) → IsPopulated → 1 ≤ length pages → 1 ≤ length (popped c pages)
  popped_available [] filled h = h
  popped_available (p ∷ []) filled h = filled
  popped_available (p ∷ q ∷ rest) filled h = omega arith

  -- The operation returns, and leaves a page in the free list.
  abbrev pub IsTotal : Option (VirtualMemory × (ℕ × ℕ)) → Type 0
  IsTotal o = (r : VirtualMemory × (ℕ × ℕ)) × (o ≡ some r) × (1 ≤ available_ppages c r.0)

  front_some : (pages : List ℕ) → 1 ≤ length pages → (p : ℕ) × (front_of c pages ≡ some p)
  front_some [] h = absurd (omega arith)
  front_some (p ∷ rest) h = (p, refl)

  translate_available :
      (filled : IsPopulated) (cpu v p : ℕ) (s : VirtualMemory) (o : Option ℕ)
      → 1 ≤ available_ppages c s
      → 1 ≤ available_ppages c (translate c cpu v p s o).0
  translate_available filled cpu v p s none h = popped_available s.ppage_free_list filled h
  translate_available filled cpu v p s (some q) h = h

  walk_available :
      (cpu v level : ℕ) (s : VirtualMemory) (o : Option ℕ)
      → 1 ≤ available_ppages c s
      → 1 ≤ available_ppages c (walk c cpu v level s o).0
  walk_available cpu v level s none h = h
  walk_available cpu v level s (some a) h = h

  next_active_total :
      (filled : IsPopulated) (s : VirtualMemory)
      → 1 ≤ available_ppages c s
      → (t : VirtualMemory) × (next_active c s ≡ some t)
        × (1 ≤ available_ppages c t)
        × (t.page_table ≡ s.page_table)
  next_active_total filled s h =
      let (p, front) = front_some s.ppage_free_list h in
      elim (Bool-cases (s.next_pte_page == 0)) [
        | inl new ↦
            rw (new, front)
              (
                ppage_pop c (record s { active_pte_page = p }),
                refl,
                popped_available s.ppage_free_list filled h,
                refl,
              )
        | inr old ↦ rw old (s, refl, h, refl)
      ]

  -- In a memory that has a page, where the free list is not empty, a translation and a page walk step
  -- return, and the free list is not empty after them.
  pub operations-IsTotal :
      (filled : IsPopulated) (s : VirtualMemory) (cpu v level : ℕ)
      → 1 ≤ available_ppages c s
      → IsTotal (va_to_pa c cpu v s) × IsTotal (get_pte_pa c cpu v level s)
  unfolding va_to_pa get_pte_pa
  operations-IsTotal filled s cpu v level h =
      let (p, front) = front_some s.ppage_free_list h in
      let (t, active, more, same) = next_active_total filled s h in
      (
        rw front (_, refl, translate_available filled cpu v p s _ h),
        rw active (_, refl, walk_available cpu v level t _ more),
      )

  translated_again :
      (cpu v p : ℕ) (s : VirtualMemory) (o : Option ℕ)
      → s.vpage_to_ppage_map cpu v ≡ o
      → (translate c cpu v p s o).0.vpage_to_ppage_map cpu v ≡ some (translate c cpu v p s o).1.0
  translated_again cpu v p s none e = ground arith
  translated_again cpu v p s (some q) e = e

  -- A page that was translated is translated to the same physical page again, with no penalty and no
  -- change of the state.
  pub va_to_pa_stable :
      (filled : IsPopulated) (s : VirtualMemory) (cpu v : ℕ) (r : VirtualMemory × (ℕ × ℕ))
      → 1 ≤ available_ppages c s
      → va_to_pa c cpu v s ≡ some r
      → va_to_pa c cpu v r.0 ≡ some (r.0, (r.1.0, 0))
  unfolding va_to_pa
  va_to_pa_stable filled s cpu v r h e =
      let (p, front) = front_some s.ppage_free_list h in
      let o = s.vpage_to_ppage_map cpu v in
      let (q, front') =
        front_some (translate c cpu v p s o).0.ppage_free_list
          (translate_available filled cpu v p s o h) in
      let again : va_to_pa c cpu v (translate c cpu v p s o).0
          ≡ some ((translate c cpu v p s o).0, ((translate c cpu v p s o).1.0, 0)) =
        rw (front', translated_again cpu v p s o refl) refl in
      subst (λ r. va_to_pa c cpu v r.0 ≡ some (r.0, (r.1.0, 0)))
        (some-injective _ r (rw front at e)) again

  walked_again :
      (cpu v level : ℕ) (s : VirtualMemory) (o : Option ℕ)
      → s.page_table cpu level (pte_key c v level) ≡ o
      → (a : ℕ) × ((walk c cpu v level s o).0.page_table cpu level (pte_key c v level) ≡ some a)
        × ((walk c cpu v level s o).1.0 ≡ splice_offset c a (get_page_offset c v level))
  walked_again cpu v level s none e = (_, ground arith, refl)
  walked_again cpu v level s (some a) e = (a, e, refl)

  -- A page walk step of an entry that has an address gives the same address again, with no penalty.
  pub get_pte_pa_stable :
      (filled : IsPopulated) (s : VirtualMemory) (cpu v level : ℕ) (r : VirtualMemory × (ℕ × ℕ))
      → 1 ≤ available_ppages c s
      → get_pte_pa c cpu v level s ≡ some r
      → (t : VirtualMemory) × (get_pte_pa c cpu v level r.0 ≡ some (t, (r.1.0, 0)))
  unfolding get_pte_pa
  get_pte_pa_stable filled s cpu v level r h e =
      let (t, active, more, same) = next_active_total filled s h in
      let o = t.page_table cpu level (pte_key c v level) in
      let (a, found, address) = walked_again cpu v level t o refl in
      let u = (walk c cpu v level t o).0 in
      let (t', active', more', same') =
        next_active_total filled u (walk_available cpu v level t o more) in
      let again : get_pte_pa c cpu v level u ≡ some (t', ((walk c cpu v level t o).1.0, 0)) =
        rw (active', same', found, address) refl in
      subst (λ r. (t : VirtualMemory) × (get_pte_pa c cpu v level r.0 ≡ some (t, (r.1.0, 0))))
        (some-injective _ r (rw active at e)) (t', again)
