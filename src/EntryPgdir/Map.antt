-- ===== src/EntryPgdir/Map.antt =====
-- The map that `entry_pgdir` sets up: the first 4MB of physical memory, at 0 and at KERNBASE.
use jos.Base.{
  ℕ, zero, suc, ◌+◌, ◌-◌, ◌*◌, ◌/◌, ◌%◌, ◌^◌, ◌<◌, ◌≤◌, ◌≡◌, ◌≢◌, refl, ◌∙◌, sym, ap, Bool, true,
  false, ==_refl, Bool-cases, inl, inr, ltb→lt, ◌&&◌, Option, none, some, List, [], ◌∷◌, bit_and,
  arith, ◌==◌, ltb, leb, if◌then◌else◌, length, get_elem?, set, replicate, get_elem?-set_ne,
  get_elem?-replicate,
}
use jos.Base.Bits.{bit_and_mask, bit_and_field}
use jos.Types.{u32_mod}
use jos.Memlayout.{kernbase}
use jos.Mmu.{npdentries, nptentries, pgsize, ptsize, ptxshift, pte_p, pte_w}
use jos.Mmu.{pdx, ptx}
use jos.Mmu.Address.{pdx-div, ptx-div, pgoff-mod, pte_addr-sub}
use jos.EntryPgdir.{entry_pgtable, entry_pgdir}
use jos.EntryPgdir.Walk.{Mapping, writable, through, via, walk}

-- Whether the `k`-th entry is page `i + k` with its flags.
is_identity : ℕ → List ℕ → Bool
is_identity i [] = true
is_identity i (x ∷ xs) = (x == i * pgsize + 3) && is_identity (i + 1) xs

is_identity-get_elem? :
    (i k : ℕ) (xs : List ℕ)
    → is_identity i xs ≡ true
    → k < length xs
    → get_elem? xs k ≡ some ((i + k) * pgsize + 3)
unfolding is_identity
is_identity-get_elem? i k [] h lt = absurd (omega arith)
is_identity-get_elem? i zero (x ∷ xs) h lt = ground arith
is_identity-get_elem? i (suc k) (x ∷ xs) h lt = ground (arith, is_identity-get_elem? (i + 1) k xs)

entry_pgtable-is_identity : is_identity 0 entry_pgtable ≡ true
unfolding entry_pgtable is_identity
entry_pgtable-is_identity = refl

length-entry_pgtable : length entry_pgtable ≡ nptentries
unfolding entry_pgtable
length-entry_pgtable = refl

pub entry_pgtable-get_elem? :
    (i : ℕ) → i < nptentries → get_elem? entry_pgtable i ≡ some (i * pgsize + 3)
entry_pgtable-get_elem? i h =
    is_identity-get_elem? 0 i entry_pgtable entry_pgtable-is_identity
      (omega (arith, length-entry_pgtable))
    ∙ some_path
  where
    some_path : some ((0 + i) * pgsize + 3) ≡ some (i * pgsize + 3)
    some_path = ground arith

pte_p-mod : (e : ℕ) → bit_and e pte_p ≡ e % 2
pte_p-mod e = bit_and_mask 1 e

pte_w-mod : (e : ℕ) → bit_and e pte_w ≡ e / 2 % 2 * 2
pte_w-mod e = omega (arith, bit_and_field 1 1 e)

-- What the comment on `entry_pgdir` promises: [0, 4MB) to [0, 4MB), read-only since the entry has no
-- PTE_W, [KERNBASE, KERNBASE + 4MB) to [0, 4MB), and nothing else.
abbrev pub early_map : ℕ → Option Mapping
early_map va =
    if ltb va ptsize
    then some (va, false)
    else if leb kernbase va && ltb va (kernbase + ptsize)
    then some (va - kernbase, true)
    else none

module _ (pgtable : ℕ) (aligned : pgtable % pgsize ≡ 0) (low : kernbase ≤ pgtable)
    (high : pgtable < u32_mod) where
  -- The directory before its two initialisers.
  abbrev blank : List ℕ
  blank = replicate npdentries 0

  lookup_low : get_elem? (entry_pgdir pgtable) 0 ≡ some (pgtable - kernbase + 1)
  unfolding entry_pgdir
  lookup_low = ap some (omega arith)

  lookup_high : get_elem? (entry_pgdir pgtable) 960 ≡ some (pgtable - kernbase + 3)
  unfolding entry_pgdir
  lookup_high = ap some (omega arith)

  lookup_other :
      (i : ℕ) → i < npdentries → i ≢ 0 → i ≢ 960 → get_elem? (entry_pgdir pgtable) i ≡ some 0
  unfolding entry_pgdir
  lookup_other i h ne ne' =
      get_elem?-set_ne (set blank 0 _) _ (λ e. ne' (sym e))
      ∙ (get_elem?-set_ne blank _ (λ e. ne (sym e)) ∙ get_elem?-replicate npdentries i 0 h)

  -- The table that the hardware finds: `entry_pgtable` at its physical address.
  abbrev pub memory : ℕ → List ℕ
  memory pa = if pa == pgtable - kernbase then entry_pgtable else []

  through_entry :
      (va pde : ℕ)
      → va < u32_mod
      → through va pde (get_elem? entry_pgtable (ptx va)) ≡ some (va % ptsize, writable pde)
  through_entry va pde small =
      rw (ptx-div va small, entry_pgtable-get_elem? (va / 2 ^ ptxshift % 2 ^ 10) (omega arith))
        (unfold through in
          rw
            (
              pte_p-mod (va / 2 ^ 12 % 2 ^ 10 * 4096 + 3),
              pte_w-mod (va / 2 ^ 12 % 2 ^ 10 * 4096 + 3),
              pte_addr-sub (va / 2 ^ 12 % 2 ^ 10 * 4096 + 3) (omega arith),
              pgoff-mod va small,
            )
            (ground arith))

  via_table :
      (va pde : ℕ)
      → va < u32_mod
      → pde % 2 ≡ 1
      → pde - pde % pgsize ≡ pgtable - kernbase
      → pde < u32_mod
      → via memory va (some pde) ≡ some (va % ptsize, writable pde)
  unfolding via
  via_table va pde small odd at below =
      rw (pte_p-mod pde, pte_addr-sub pde below, at, odd, ==_refl (pgtable - kernbase))
        (through_entry va pde small)

  walk_low : (va : ℕ) → va < ptsize → walk (entry_pgdir pgtable) memory va ≡ some (va, false)
  unfolding walk
  walk_low va h =
      let e : pdx va ≡ 0 = omega (arith, pdx-div va (omega arith)) in
      rw
        (
          e,
          lookup_low,
          via_table va (pgtable - kernbase + 1) (omega arith) (omega arith) (omega arith)
              (omega arith),
        )
        (rw (pte_w-mod (pgtable - kernbase + 1)) (ground arith))

  walk_high :
      (va : ℕ)
      → kernbase ≤ va
      → va < kernbase + ptsize
      → walk (entry_pgdir pgtable) memory va ≡ some (va - kernbase, true)
  unfolding walk
  walk_high va h h' =
      let e : pdx va ≡ 960 = omega (arith, pdx-div va (omega arith)) in
      rw
        (
          e,
          lookup_high,
          via_table va (pgtable - kernbase + 3) (omega arith) (omega arith) (omega arith)
              (omega arith),
        )
        (rw (pte_w-mod (pgtable - kernbase + 3)) (ground arith))

  walk_other :
      (va : ℕ)
      → va < u32_mod
      → pdx va ≢ 0
      → pdx va ≢ 960
      → walk (entry_pgdir pgtable) memory va ≡ none
  unfolding walk
  walk_other va h ne ne' =
      rw (lookup_other (pdx va) (omega (arith, pdx-div va h)) ne ne') (unfold via in refl)

  -- For a page-aligned `pgtable` in the upper 256MB, where the linker puts the kernel, the
  -- hardware's walk of `entry_pgdir` and `entry_pgtable` translates every 32-bit address as
  -- `early_map` says.
  pub walk-early_map : (va : ℕ) → va < u32_mod → walk (entry_pgdir pgtable) memory va ≡ early_map va
  walk-early_map va h = elim (Bool-cases (ltb va ptsize)) [
    | inl below ↦ rw below (walk_low va (ltb→lt va _ below))
    | inr above ↦ rw above (elim (Bool-cases (leb kernbase va && ltb va (kernbase + ptsize))) [
      | inl inside ↦ rw inside (walk_high va (ground arith) (ground arith))
      | inr outside ↦
          rw outside (walk_other va h (ground (arith, pdx-div va h)) (ground (arith, pdx-div va h)))
    ])
  ]
