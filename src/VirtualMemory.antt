-- ===== src/VirtualMemory.antt =====
-- ChampSim/inc/vmem.h and ChampSim/src/vmem.cc: the physical pages of virtual pages and of page table
-- entries. A page is its number, and an address its number of bytes. `map` is a function into
-- options. The failed assertion of `ppage_front` is `none`. The size of memory, the sizes of pages and
-- the permutation that `std::shuffle` makes are given by the configuration; the warnings are left out.
pub mod Translation
pub mod Pages
pub mod Address
pub mod Disjoint
pub mod Separation
mod Tests
use cs230_branch_predictor.Prelude.{
  ℕ, ◌+◌, ◌-◌, ◌*◌, ◌/◌, ◌%◌, ◌^◌, Bool, true, false, ◌&&◌, ◌==◌, List, [], ◌∷◌, Option, none, some,
  if◌then◌else◌, ◌>>=◌,
}
use cs230_branch_predictor.Prelude.Sequences.{length}
use cs230_branch_predictor.Prelude.Lists.{count_from}

-- What is fixed at construction. The page size is 2 to `log2_page_size`, and a page of the page table
-- has 2 to `log2_pte_count` entries of 8 bytes. `ppage_count` is the number of pages of the memory past
-- its first MiB, and `base_address` the first of them.
pub record Configuration : Type 0 where
  pub ppage_count : ℕ
  pub base_address : ℕ
  pub shuffle : List ℕ → List ℕ
  pub log2_page_size : ℕ
  pub log2_pte_count : ℕ
  pub minor_fault_penalty : ℕ

pub record VirtualMemory : Type 0 where
  pub vpage_to_ppage_map : ℕ → ℕ → Option ℕ
  pub page_table : ℕ → ℕ → ℕ → Option ℕ
  pub ppage_free_list : List ℕ
  pub active_pte_page : ℕ
  pub next_pte_page : ℕ

-- The table with a value at a key, the other keys as before.
abbrev pub insert₂ : (ℕ → ℕ → Option ℕ) → ℕ → ℕ → ℕ → ℕ → ℕ → Option ℕ
insert₂ table cpu v p cpu' v' = if cpu' == cpu && v' == v then some p else table cpu' v'

abbrev pub insert₃ : (ℕ → ℕ → ℕ → Option ℕ) → ℕ → ℕ → ℕ → ℕ → ℕ → ℕ → ℕ → Option ℕ
insert₃ table cpu level key a cpu' level' key' =
    if cpu' == cpu && level' == level && key' == key then some a else table cpu' level' key'

module _ (c : Configuration) where
  -- `populate_pages` and `shuffle_pages`.
  abbrev pub populate_pages : List ℕ
  populate_pages = count_from c.base_address c.ppage_count

  abbrev pub shuffle_pages : List ℕ → List ℕ
  shuffle_pages pages = c.shuffle pages

  abbrev pub make : VirtualMemory
  make = record {
    vpage_to_ppage_map = λ cpu v. none;
    page_table = λ cpu level key. none;
    ppage_free_list = shuffle_pages populate_pages;
    active_pte_page = 0;
    next_pte_page = 0;
  }

  -- `lower` and `size` of `extent`, of a level from 1 on.
  abbrev pub shamt : ℕ → ℕ
  shamt level = c.log2_page_size + c.log2_pte_count * (level - 1)

  -- `get_offset`, of an address and of a page number.
  abbrev pub get_offset : ℕ → ℕ → ℕ
  get_offset vaddr level = vaddr / 2 ^ shamt level % 2 ^ c.log2_pte_count

  abbrev pub get_page_offset : ℕ → ℕ → ℕ
  get_page_offset vpage level = get_offset (vpage * 2 ^ c.log2_page_size) level

  abbrev pub available_ppages : VirtualMemory → ℕ
  available_ppages s = length s.ppage_free_list

  -- The list after `pop_front`, filled again when it is empty.
  abbrev pub popped : List ℕ → List ℕ
  popped [] = []
  popped (p ∷ []) = shuffle_pages populate_pages
  popped (p ∷ q ∷ rest) = q ∷ rest

  abbrev pub ppage_pop : VirtualMemory → VirtualMemory
  ppage_pop s = record s { ppage_free_list = popped s.ppage_free_list }

  abbrev pub front_of : List ℕ → Option ℕ
  front_of [] = none
  front_of (p ∷ rest) = some p

  abbrev pub ppage_front : VirtualMemory → Option ℕ
  ppage_front s = front_of s.ppage_free_list

  -- What follows `try_emplace`: the entry that was there, or the new one, a fault.
  abbrev pub translate : ℕ → ℕ → ℕ → VirtualMemory → Option ℕ → VirtualMemory × (ℕ × ℕ)
  translate cpu vaddr ppage s (some mapped) = (s, (mapped, 0))
  translate cpu vaddr ppage s none = (
    ppage_pop (record s { vpage_to_ppage_map = insert₂ s.vpage_to_ppage_map cpu vaddr ppage }),
    (ppage, c.minor_fault_penalty),
  )

  unfoldable pub va_to_pa : ℕ → ℕ → VirtualMemory → Option (VirtualMemory × (ℕ × ℕ))
  va_to_pa cpu vaddr s = do
    ppage ← ppage_front s
    some (translate cpu vaddr ppage s (s.vpage_to_ppage_map cpu vaddr))

  -- The pages of the page table that fit in a physical page.
  abbrev pub pte_pages : ℕ
  pte_pages = 2 ^ (c.log2_page_size - (c.log2_pte_count + 3))

  -- A new physical page for the page table, when the offset in the last one is back at 0.
  abbrev pub next_active : VirtualMemory → Option VirtualMemory
  next_active s =
      if s.next_pte_page == 0
      then (do ppage ← ppage_front s; some (ppage_pop (record s { active_pte_page = ppage })))
      else some s

  -- `splice(active_pte_page, next_pte_page)`
  abbrev pub pte_address : VirtualMemory → ℕ
  pte_address s =
      s.active_pte_page * 2 ^ c.log2_page_size + s.next_pte_page * 2 ^ (c.log2_pte_count + 3)

  abbrev pub pte_key : ℕ → ℕ → ℕ
  pte_key vaddr level = vaddr * 2 ^ c.log2_page_size / 2 ^ shamt level

  -- The splice of the offset into the address of the page of the page table.
  abbrev pub splice_offset : ℕ → ℕ → ℕ
  splice_offset a offset =
      a / 2 ^ (c.log2_pte_count + 3) * 2 ^ (c.log2_pte_count + 3) + offset * 8 + a % 8

  abbrev pub walk : ℕ → ℕ → ℕ → VirtualMemory → Option ℕ → VirtualMemory × (ℕ × ℕ)
  walk cpu vaddr level s (some a) = (s, (splice_offset a (get_page_offset vaddr level), 0))
  walk cpu vaddr level s none = (
    record s {
      page_table = insert₃ s.page_table cpu level (pte_key vaddr level) (pte_address s);
      next_pte_page = (s.next_pte_page + 1) % pte_pages;
    },
    (splice_offset (pte_address s) (get_page_offset vaddr level), c.minor_fault_penalty),
  )

  unfoldable pub get_pte_pa : ℕ → ℕ → ℕ → VirtualMemory → Option (VirtualMemory × (ℕ × ℕ))
  get_pte_pa cpu vaddr level s = do
    s' ← next_active s
    some (walk cpu vaddr level s' (s'.page_table cpu level (pte_key vaddr level)))
