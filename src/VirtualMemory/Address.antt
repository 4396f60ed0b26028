-- ===== src/VirtualMemory/Address.antt =====
-- ChampSim/src/vmem.cc: where the pages of the page table lie in the physical page that they share.
use native.Mathlib.Nat.{
  one-le-pow, mul-lt-mul_of_pos_right, mul-add-div_right, div-eq_of_lt, mod-lt, mod-eq_of_lt,
  mod_self,
}
use cs230_branch_predictor.Prelude.{
  ℕ, ◌+◌, ◌-◌, ◌*◌, ◌/◌, ◌%◌, ◌^◌, ◌≤◌, ◌<◌, ◌≡◌, ◌≢◌, ap, arith, leb, Bool-cases, inl, inr, ◌∙◌,
  refl,
}
use cs230_branch_predictor.FoldedShiftRegister.Digits.{two_pow_add}
use cs230_branch_predictor.VirtualMemory.{Configuration, VirtualMemory, pte_pages, pte_address}

module _ (c : Configuration) where
  -- The number of bytes of a physical page, and of a page of the page table.
  abbrev pub page_bytes : ℕ
  page_bytes = 2 ^ c.log2_page_size

  abbrev pub pte_bytes : ℕ
  pte_bytes = 2 ^ (c.log2_pte_count + 3)

  pub page_bytes_pos : 1 ≤ page_bytes
  page_bytes_pos = one-le-pow c.log2_page_size 2 (omega arith)

  pub pte_bytes_pos : 1 ≤ pte_bytes
  pte_bytes_pos = one-le-pow (c.log2_pte_count + 3) 2 (omega arith)

  pub pte_pages_pos : 1 ≤ pte_pages c
  pte_pages_pos = one-le-pow (c.log2_page_size - (c.log2_pte_count + 3)) 2 (omega arith)

  -- A page of the page table lies in the physical page.
  pub inside_page : (n : ℕ) → n < pte_pages c → n * pte_bytes < page_bytes
  inside_page n lt = elim (Bool-cases (leb (c.log2_pte_count + 3) c.log2_page_size)) [
    | inl fits ↦
        let sum : c.log2_page_size - (c.log2_pte_count + 3) + (c.log2_pte_count + 3)
            ≡ c.log2_page_size =
          ground arith in
        let product : page_bytes ≡ pte_pages c * pte_bytes =
          rw (← ap (λ (k : ℕ). 2 ^ k) sum)
            (two_pow_add (c.log2_page_size - (c.log2_pte_count + 3)) (c.log2_pte_count + 3)) in
        rw product (mul-lt-mul_of_pos_right lt pte_bytes_pos)
    | inr large ↦
        let none_left : c.log2_page_size - (c.log2_pte_count + 3) ≡ 0 = ground arith in
        let one : pte_pages c ≡ 1 = rw none_left refl in
        let zero_th : n ≡ 0 = omega (arith, lt, one) in rw zero_th (omega (arith, page_bytes_pos))
  ]

  -- The physical page of the page of the page table that is filled next.
  pub pte_address-page :
      (s : VirtualMemory)
      → s.next_pte_page < pte_pages c
      → pte_address c s / page_bytes ≡ s.active_pte_page
  pte_address-page s lt =
      mul-add-div_right page_bytes_pos s.active_pte_page (s.next_pte_page * pte_bytes)
      ∙ omega (arith, div-eq_of_lt (inside_page s.next_pte_page lt))

  -- The offset advances by one, or goes back to 0.
  pub next_inside : (n : ℕ) → (n + 1) % pte_pages c < pte_pages c
  next_inside n = mod-lt (n + 1) pte_pages_pos

  pub next_advances :
      (n : ℕ) → n < pte_pages c → (n + 1) % pte_pages c ≢ 0 → (n + 1) % pte_pages c ≡ n + 1
  next_advances n lt ne = elim (Bool-cases (leb (n + 2) (pte_pages c))) [
    | inl below ↦ mod-eq_of_lt (ground arith)
    | inr last ↦
        let full : n + 1 ≡ pte_pages c = ground arith in
        absurd (ne (rw full (mod_self (pte_pages c))))
  ]
