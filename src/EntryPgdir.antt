-- ===== src/EntryPgdir.antt =====
-- kern/entrypgdir.c: the page directory and the page table under which entry.S turns paging on.
-- `pgtable` is the address that the linker gives `entry_pgtable`.
mod Rows
pub mod Walk
pub mod Map
use jos.Base.{ℕ, ◌+◌, List, ◌++◌, map, set, replicate}
use jos.Base.Bits.{◌>>>◌}
use jos.Types.{add32, sub32}
use jos.Memlayout.{kernbase}
use jos.Mmu.{npdentries, pdxshift, pte_p, pte_w}
use Rows.{rows_0, rows_1, rows_2, rows_3, rows_4, rows_5, rows_6, rows_7, row}

unfoldable pub entry_pgtable : List ℕ
unfolding row rows_0 rows_1 rows_2 rows_3 rows_4 rows_5 rows_6 rows_7
entry_pgtable =
    map row
      (rows_0 ++ (rows_1 ++ (rows_2 ++ (rows_3 ++ (rows_4 ++ (rows_5 ++ (rows_6 ++ rows_7)))))))

-- Entries that no initialiser names are 0.
unfoldable pub entry_pgdir : ℕ → List ℕ
entry_pgdir pgtable =
    set (set (replicate npdentries 0) 0 (add32 (sub32 pgtable kernbase) pte_p))
      (kernbase >>> pdxshift) (add32 (add32 (sub32 pgtable kernbase) pte_p) pte_w)
