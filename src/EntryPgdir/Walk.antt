-- ===== src/EntryPgdir/Walk.antt =====
-- What the x86 does with a page directory: the documented two-level walk, as a specification.
use jos.Base.{
  ℕ, ◌+◌, Bool, not, ◌&&◌, Option, none, some, List, bit_and, ◌==◌, if◌then◌else◌, get_elem?,
}
use jos.Mmu.{pte_p, pte_w, pte_addr, pdx, ptx, pgoff}

-- A physical address, and whether the page may be written.
abbrev pub Mapping : Type 0
Mapping = ℕ × Bool

abbrev pub present : ℕ → Bool
present e = not (bit_and e pte_p == 0)

abbrev pub writable : ℕ → Bool
writable e = not (bit_and e pte_w == 0)

-- The page table entry, read after the directory entry `pde`.
unfoldable pub through : ℕ → ℕ → Option ℕ → Option Mapping
through va pde none = none
through va pde (some pte) =
    if present pte then some (pte_addr pte + pgoff va, writable pde && writable pte) else none

-- `table pa` is the page table at physical address `pa`.
unfoldable pub via : (ℕ → List ℕ) → ℕ → Option ℕ → Option Mapping
via table va none = none
via table va (some pde) =
    if present pde then through va pde (get_elem? (table (pte_addr pde)) (ptx va)) else none

unfoldable pub walk : List ℕ → (ℕ → List ℕ) → ℕ → Option Mapping
walk pgdir table va = via table va (get_elem? pgdir (pdx va))
