-- ===== src/Tests/Paging.antt =====
-- Addresses, descriptors and the early page map.
use jos.Base.{
  ◌≡◌, ◌+◌, ◌*◌, ◌^◌, ◌-◌, ◌<◌, ◌≤◌, [], ◌∷◌, get_or, set, refl, true, false, some, none, arith,
}
use jos.Types.{round_down, round_up}
use jos.Memlayout.{
  ustabdata, utemp, pftemp, utext, ustacktop, uxstacktop, kstksize, kstkgap, kstacktop, mmiolim,
  iophysmem, extphysmem,
}
use jos.Mmu.{pgsize, pdx, ptx, pgoff, seg, setgate, sts_ig32, pte_addr}
use jos.Mmu.Assembler.{seg_bytes, segdesc_bytes, seg-seg_bytes}
use jos.Mmu.Descriptors.{base_of, limit_of, offset_of, setgate_lem}
use jos.EntryPgdir.{entry_pgdir}
use jos.EntryPgdir.Walk.{walk}
use jos.EntryPgdir.Map.{memory, early_map, walk-early_map}

rounds : (round_up 5000 4096 ≡ 8192) × (round_down 5000 4096 ≡ 4096)
unfolding round_up round_down
rounds = (refl, refl)

parts : (pdx 0xf0100abc ≡ 0x3c0) × (ptx 0xf0100abc ≡ 0x100) × (pgoff 0xf0100abc ≡ 0xabc)
unfolding pdx ptx pgoff
parts = (refl, refl, refl)

frame : pte_addr 0x12345067 ≡ 0x12345000
unfolding pte_addr
frame = refl

-- the code segment of boot/boot.S
code_segment : seg_bytes 0xa 0 0xffffffff ≡ 0xff ∷ 0xff ∷ 0 ∷ 0 ∷ 0 ∷ 0x9a ∷ 0xcf ∷ 0 ∷ []
unfolding seg_bytes
code_segment = refl

seg-seg_bytes_example :
    let bytes = seg_bytes 0xa 0x12345678 0xffffffff in
    (segdesc_bytes (seg 0xa 0x12345678 0xffffffff 3) ≡ set bytes 5 (get_or bytes 5 0 + 3 * 2 ^ 5))
    × (base_of (seg 0xa 0x12345678 0xffffffff 3) ≡ 0x12345678)
    × (limit_of (seg 0xa 0x12345678 0xffffffff 3) ≡ 0xffffffff)
seg-seg_bytes_example =
    seg-seg_bytes 0xa 0x12345678 0xffffffff 3 (omega arith) (omega arith) (omega arith)
      (omega arith)

setgate_lem_example :
    let d = setgate false 8 0xf0104000 3 in
    (offset_of d ≡ 0xf0104000) × (d.sel ≡ 8) × (d.dpl ≡ 3) × (d.p ≡ 1) × (d.gate_type ≡ sts_ig32)
setgate_lem_example = setgate_lem false 8 0xf0104000 3 (omega arith) (omega arith) (omega arith)

early_map_cases :
    (early_map 0x3fffff ≡ some (0x3fffff, false))
    × (early_map 0xf0100000 ≡ some (0x100000, true))
    × (early_map 0xf0400000 ≡ none)
early_map_cases = (refl, refl, refl)

walk-early_map_example :
    walk (entry_pgdir 0xf0113000) (memory 0xf0113000 refl (omega arith) (omega arith)) 0xf0100010
    ≡ some (0x100010, true)
walk-early_map_example =
    walk-early_map 0xf0113000 refl (omega arith) (omega arith) 0xf0100010 (omega arith)

-- From 0 up: user text, the user stack, the windows of the kernel's pages, the stack, the kernel.
regions_apart :
    (ustabdata < utemp)
    × (utemp ≤ pftemp)
    × (pftemp + pgsize ≡ utext)
    × (utext < ustacktop)
    × (ustacktop + 2 * pgsize ≡ uxstacktop)
    × (kstksize + kstkgap ≤ kstacktop - mmiolim)
    × (iophysmem < extphysmem)
regions_apart =
    (omega arith, omega arith, omega arith, omega arith, omega arith, omega arith, omega arith)
