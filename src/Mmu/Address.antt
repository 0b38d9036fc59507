-- ===== src/Mmu/Address.antt =====
-- The parts of a linear address as arithmetic, and that PGADDR puts them together again.
use jos.Base.{ℕ, ◌+◌, ◌-◌, ◌*◌, ◌/◌, ◌%◌, ◌^◌, ◌<◌, ◌≡◌, arith}
use jos.Base.Bits.{bit_or_fields, bit_and_mask, bit_and_field}
use jos.Types.{u32_mod}
use jos.Mmu.{pdxshift, ptxshift, pgsize, pdx, ptx, pgoff, pgaddr, pgnum, pte_addr}

module _ (la : ℕ) (small : la < u32_mod) where
  pub pdx-div : pdx la ≡ la / 2 ^ pdxshift
  unfolding pdx
  pdx-div = omega (arith, bit_and_mask 10 (la % u32_mod / 2 ^ pdxshift))

  pub ptx-div : ptx la ≡ la / 2 ^ ptxshift % 2 ^ 10
  unfolding ptx
  ptx-div = omega (arith, bit_and_mask 10 (la % u32_mod / 2 ^ ptxshift))

  pub pgoff-mod : pgoff la ≡ la % pgsize
  unfolding pgoff
  pgoff-mod = omega (arith, bit_and_mask 12 (la % u32_mod))

  pub pte_addr-sub : pte_addr la ≡ la - la % pgsize
  unfolding pte_addr
  pte_addr-sub = omega (arith, bit_and_field 12 20 (la % u32_mod))

  pub pgnum-div : pgnum la ≡ la / pgsize
  unfolding pgnum
  pgnum-div = omega arith

pub pgaddr-sum :
    (d t o : ℕ)
    → d < 2 ^ 10
    → t < 2 ^ 10
    → o < 2 ^ 12
    → pgaddr d t o ≡ d * 2 ^ pdxshift + t * 2 ^ ptxshift + o
unfolding pgaddr
pgaddr-sum d t o hd ht ho =
    let e : d * 2 ^ 22 + t * 2 ^ 12 ≡ (d * 2 ^ 10 + t) * 2 ^ 12 = omega arith in
    rw (bit_or_fields 22 d (t * 2 ^ 12) (omega arith), e, bit_or_fields 12 (d * 2 ^ 10 + t) o ho)
      (omega arith)

-- PGADDR builds every linear address from its PDX, PTX and PGOFF.
pgaddr-pdx-ptx-pgoff : (la : ℕ) → la < u32_mod → pgaddr (pdx la) (ptx la) (pgoff la) ≡ la
pgaddr-pdx-ptx-pgoff la small =
    rw (pdx-div la small, ptx-div la small, pgoff-mod la small)
      (omega (arith, pgaddr-sum (la / 2 ^ 22) (la / 2 ^ 12 % 2 ^ 10) (la % 2 ^ 12)))

-- PDX, PTX and PGOFF take an address that PGADDR built apart again.
pub parts-pgaddr :
    (d t o : ℕ)
    → d < 2 ^ 10
    → t < 2 ^ 10
    → o < 2 ^ 12
    → (pdx (pgaddr d t o) ≡ d) × (ptx (pgaddr d t o) ≡ t) × (pgoff (pgaddr d t o) ≡ o)
parts-pgaddr d t o hd ht ho =
    let e = pgaddr-sum d t o hd ht ho in
    let small : pgaddr d t o < u32_mod = omega arith in
    (
      omega (arith, pdx-div _ small),
      omega (arith, ptx-div _ small),
      omega (arith, pgoff-mod _ small),
    )
