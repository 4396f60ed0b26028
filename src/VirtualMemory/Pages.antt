-- ===== src/VirtualMemory/Pages.antt =====
-- ChampSim/src/vmem.cc: which pages a translation and a page walk step take.
use cs230_branch_predictor.Prelude.{
  ℕ, ◌+◌, ◌*◌, ◌^◌, ◌%◌, ◌≤◌, ◌≡◌, refl, arith, Bool, true, false, if◌then◌else◌, ◌==◌, List, [],
  ◌∷◌, Option, none, some, Bool-cases, inl, inr,
}
use cs230_branch_predictor.Prelude.Options.{Returns}
use cs230_branch_predictor.Prelude.Sequences.{length, drop_first}
use cs230_branch_predictor.VirtualMemory.{
  Configuration, VirtualMemory, available_ppages, ppage_pop, ppage_front, pte_pages, front_of,
  translate, va_to_pa, pte_key, splice_offset, get_page_offset, walk, get_pte_pa,
}

module _ (c : Configuration) where
  -- The translation before, or the page at the front of the free list.
  abbrev pub found_or_front : Option ℕ → List ℕ → Option ℕ
  found_or_front none pages = front_of c pages
  found_or_front (some p) pages = some p

  abbrev pub is_missing : Option ℕ → Bool
  is_missing none = true
  is_missing (some a) = false

  -- The free list after a page of it was taken, or not.
  abbrev pub remaining : Bool → List ℕ → List ℕ
  remaining taken pages = if taken then drop_first pages else pages

  abbrev pub penalty : Bool → ℕ
  penalty fault = if fault then c.minor_fault_penalty else 0

  -- What a translation does: it takes the front page exactly if the page was not mapped.
  abbrev pub TranslatesOnce : ℕ → ℕ → VirtualMemory → VirtualMemory × (ℕ × ℕ) → Type 0
  TranslatesOnce cpu v s r =
      let missing = is_missing (s.vpage_to_ppage_map cpu v) in
      (r.0.ppage_free_list ≡ remaining missing s.ppage_free_list)
      × (some r.1.0 ≡ found_or_front (s.vpage_to_ppage_map cpu v) s.ppage_free_list)
      × (r.0.vpage_to_ppage_map cpu v ≡ some r.1.0)
      × (r.1.1 ≡ penalty missing)

  -- The address of the entry, or that of the page of the page table at this offset of a page.
  abbrev pub entry_or_new : Option ℕ → ℕ → ℕ → ℕ
  entry_or_new none page next = page * 2 ^ c.log2_page_size + next * 2 ^ (c.log2_pte_count + 3)
  entry_or_new (some a) page next = a

  -- What a page walk step does: it takes the front page exactly if the offset of the next page of the
  -- page table is 0, whether or not the entry has an address, and it stores an address if there is none.
  abbrev pub WalksOnce : ℕ → ℕ → ℕ → VirtualMemory → VirtualMemory × (ℕ × ℕ) → Type 0
  WalksOnce cpu v level s r =
      let entry = s.page_table cpu level (pte_key c v level) in
      let missing = is_missing entry in
      let new = s.next_pte_page == 0 in
      let address = entry_or_new entry r.0.active_pte_page s.next_pte_page in
      (r.0.ppage_free_list ≡ remaining new s.ppage_free_list)
      × (some r.0.active_pte_page
          ≡ (if new then front_of c s.ppage_free_list else some s.active_pte_page))
      × (r.0.next_pte_page
          ≡ (if missing then (s.next_pte_page + 1) % pte_pages c else s.next_pte_page))
      × (r.1.1 ≡ penalty missing)
      × (r.0.page_table cpu level (pte_key c v level) ≡ some address)
      × (r.1.0 ≡ splice_offset c address (get_page_offset c v level))

  translates :
      (cpu v p q : ℕ) (rest : List ℕ) (s : VirtualMemory) (o : Option ℕ)
      → s.ppage_free_list ≡ p ∷ q ∷ rest
      → s.vpage_to_ppage_map cpu v ≡ o
      → TranslatesOnce cpu v s (translate c cpu v p s o)
  translates cpu v p q rest s none free e = rw (e, free) (refl, refl, ground arith, refl)
  translates cpu v p q rest s (some m) free e = rw e (refl, refl, refl, refl)

  walks_new :
      (cpu v level p q : ℕ) (rest : List ℕ) (s : VirtualMemory) (o : Option ℕ)
      → s.ppage_free_list ≡ p ∷ q ∷ rest
      → s.next_pte_page == 0 ≡ true
      → s.page_table cpu level (pte_key c v level) ≡ o
      → WalksOnce cpu v level s
          (walk c cpu v level (ppage_pop c (record s { active_pte_page = p })) o)
  walks_new cpu v level p q rest s none free new e =
      rw (e, free, new) (refl, refl, refl, refl, ground arith, refl)
  walks_new cpu v level p q rest s (some a) free new e =
      rw (e, free, new) (refl, refl, refl, refl, refl, refl)

  walks_old :
      (cpu v level : ℕ) (s : VirtualMemory) (o : Option ℕ)
      → s.next_pte_page == 0 ≡ false
      → s.page_table cpu level (pte_key c v level) ≡ o
      → WalksOnce cpu v level s (walk c cpu v level s o)
  walks_old cpu v level s none old e = rw (e, old) (refl, refl, refl, refl, ground arith, refl)
  walks_old cpu v level s (some a) old e = rw (e, old) (refl, refl, refl, refl, refl, refl)

  take_pages :
      (s : VirtualMemory) (cpu v level : ℕ) (pages : List ℕ)
      → s.ppage_free_list ≡ pages
      → 2 ≤ length pages
      → Returns (TranslatesOnce cpu v s) (va_to_pa c cpu v s)
        × Returns (WalksOnce cpu v level s) (get_pte_pa c cpu v level s)
  unfolding va_to_pa get_pte_pa
  take_pages s cpu v level [] free h = absurd (omega arith)
  take_pages s cpu v level (p ∷ []) free h = absurd (omega arith)
  take_pages s cpu v level (p ∷ q ∷ rest) free h =
      let front : ppage_front c s ≡ some p = rw free refl in
      let o = s.page_table cpu level (pte_key c v level) in
      (
        (
          translate c cpu v p s (s.vpage_to_ppage_map cpu v),
          rw front refl,
          translates cpu v p q rest s _ free refl,
        ),
        elim (Bool-cases (s.next_pte_page == 0)) [
          | inl new ↦ (
            walk c cpu v level (ppage_pop c (record s { active_pte_page = p })) o,
            rw (new, front) refl,
            walks_new cpu v level p q rest s o free new refl,
          )
          | inr old ↦ (walk c cpu v level s o, rw old refl, walks_old cpu v level s o old refl)
        ],
      )

  -- Where at least two pages are free, a translation returns: it takes the front page of the free list,
  -- maps it and has the penalty of a fault if the page was not mapped, and else it gives the page of
  -- the map, takes none and has no penalty. A page walk step returns too: it takes the front page, as
  -- the page that the page table fills, exactly if the offset of the next page of the page table is 0,
  -- also for an entry that has an address; the offset advances and the penalty is that of a fault
  -- exactly for an entry that has none. The entry is stored where there was none, and the
  -- address is the splice into it.
  pub pages_taken :
      (s : VirtualMemory) (cpu v level : ℕ)
      → 2 ≤ available_ppages c s
      → Returns (TranslatesOnce cpu v s) (va_to_pa c cpu v s)
        × Returns (WalksOnce cpu v level s) (get_pte_pa c cpu v level s)
  pages_taken s cpu v level h = take_pages s cpu v level s.ppage_free_list refl h
