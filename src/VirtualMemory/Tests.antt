-- ===== src/VirtualMemory/Tests.antt =====
-- A memory of four pages that is not shuffled, and the theorems on it.
use cs230_branch_predictor.Prelude.{◌≡◌, refl, arith, [], ◌∷◌, some}
use cs230_branch_predictor.Prelude.Options.{Returns}
use cs230_branch_predictor.Prelude.Lists.{count_from-Distinct}
use cs230_branch_predictor.VirtualMemory.{
  Configuration, VirtualMemory, make, insert₂, insert₃, va_to_pa, get_pte_pa,
}
use cs230_branch_predictor.VirtualMemory.Translation.{IsTotal, operations-IsTotal}
use cs230_branch_predictor.VirtualMemory.Pages.{TranslatesOnce, WalksOnce, pages_taken}
use cs230_branch_predictor.VirtualMemory.Separation.{
  KeepsSeparate, operations-IsSeparate, make-IsSeparate,
}

-- A page of the page table is as large as a physical page.
abbrev small_memory : Configuration
small_memory = record {
  ppage_count = 4;
  base_address = 256;
  shuffle = λ pages. pages;
  log2_page_size = 12;
  log2_pte_count = 9;
  minor_fault_penalty = 200;
}

abbrev fresh : VirtualMemory
fresh = make small_memory

-- Virtual page 7 has the first page.
abbrev mapped : VirtualMemory
mapped = record fresh {
  vpage_to_ppage_map = insert₂ fresh.vpage_to_ppage_map 0 7 256;
  ppage_free_list = 257 ∷ 258 ∷ 259 ∷ [];
}

-- Level 1 of the page table has the first page for virtual page 7.
abbrev walked : VirtualMemory
walked = record fresh {
  page_table = insert₃ fresh.page_table 0 1 7 1048576;
  ppage_free_list = 257 ∷ 258 ∷ 259 ∷ [];
  active_pte_page = 256;
}

maps : va_to_pa small_memory 0 7 fresh ≡ some (mapped, (256, 200))
unfolding va_to_pa
maps = refl

walks : get_pte_pa small_memory 0 7 1 fresh ≡ some (walked, (1048632, 200))
unfolding get_pte_pa
walks = refl

operations-IsTotal_example :
    IsTotal small_memory (va_to_pa small_memory 0 7 fresh)
    × IsTotal small_memory (get_pte_pa small_memory 0 7 1 fresh)
operations-IsTotal_example = operations-IsTotal small_memory (omega arith) fresh 0 7 1 (omega arith)

pages_taken_example :
    Returns (TranslatesOnce small_memory 0 7 walked) (va_to_pa small_memory 0 7 walked)
    × Returns (WalksOnce small_memory 0 7 1 walked) (get_pte_pa small_memory 0 7 1 walked)
pages_taken_example = pages_taken small_memory walked 0 7 1 (omega arith)

-- Eight pages of the page table fit in a physical page.
abbrev large_pages : Configuration
large_pages = record small_memory { log2_page_size = 15 }

operations-IsSeparate_example :
    KeepsSeparate large_pages (va_to_pa large_pages 0 7 (make large_pages))
    × KeepsSeparate large_pages (get_pte_pa large_pages 0 7 1 (make large_pages))
operations-IsSeparate_example =
    operations-IsSeparate large_pages (make large_pages) 0 7 1 (omega arith)
      (make-IsSeparate large_pages (count_from-Distinct 256 4))
