-- ===== src/Mmu.antt =====
-- inc/mmu.h: the parts of a linear address, the flags of page table entries, segment descriptors
-- and gate descriptors. A bit field of `w` bits keeps the low `w` bits of what is stored in it.
pub mod Address
pub mod Descriptors
pub mod Assembler
use jos.Base.{ℕ, ◌+◌, ◌-◌, ◌*◌, ◌%◌, ◌^◌, bit_and, bit_or, Bool, if◌then◌else◌}
use jos.Base.Bits.{◌<<<◌, ◌>>>◌}
use jos.Types.{u32}

abbrev pub ptxshift : ℕ
ptxshift = 12

abbrev pub pdxshift : ℕ
pdxshift = 22

abbrev pub npdentries : ℕ
npdentries = 1024

abbrev pub nptentries : ℕ
nptentries = 1024

abbrev pub pgsize : ℕ
pgsize = 4096

abbrev pub ptsize : ℕ
ptsize = pgsize * nptentries

abbrev pub pte_p : ℕ
pte_p = 0x001

abbrev pub pte_w : ℕ
pte_w = 0x002

unfoldable pub pgnum : ℕ → ℕ
pgnum la = u32 la >>> ptxshift

unfoldable pub pdx : ℕ → ℕ
pdx la = bit_and (u32 la >>> pdxshift) 0x3ff

unfoldable pub ptx : ℕ → ℕ
ptx la = bit_and (u32 la >>> ptxshift) 0x3ff

unfoldable pub pgoff : ℕ → ℕ
pgoff la = bit_and (u32 la) 0xfff

unfoldable pub pgaddr : ℕ → ℕ → ℕ → ℕ
pgaddr d t o = u32 (bit_or (bit_or (d <<< pdxshift) (t <<< ptxshift)) o)

-- `~0xFFF` on 32 bits is 0xFFFFF000.
unfoldable pub pte_addr : ℕ → ℕ
pte_addr pte = bit_and (u32 pte) 0xfffff000

-- `struct Segdesc`
pub record Segdesc : Type 0 where
  pub lim_15_0 : ℕ
  pub base_15_0 : ℕ
  pub base_23_16 : ℕ
  pub seg_type : ℕ
  pub s : ℕ
  pub dpl : ℕ
  pub p : ℕ
  pub lim_19_16 : ℕ
  pub avl : ℕ
  pub rsv1 : ℕ
  pub db : ℕ
  pub g : ℕ
  pub base_31_24 : ℕ

-- `SEG(type, base, lim, dpl)`, of 32-bit arguments
unfoldable pub seg : ℕ → ℕ → ℕ → ℕ → Segdesc
seg type base lim dpl = record {
  lim_15_0 = bit_and (lim >>> 12) 0xffff;
  base_15_0 = bit_and base 0xffff;
  base_23_16 = bit_and (base >>> 16) 0xff;
  seg_type = type % 2 ^ 4;
  s = 1;
  dpl = dpl % 2 ^ 2;
  p = 1;
  lim_19_16 = (u32 lim >>> 28) % 2 ^ 4;
  avl = 0;
  rsv1 = 0;
  db = 1;
  g = 1;
  base_31_24 = (u32 base >>> 24) % 2 ^ 8;
}

-- `SEG16(type, base, lim, dpl)`
unfoldable pub seg16 : ℕ → ℕ → ℕ → ℕ → Segdesc
seg16 type base lim dpl = record {
  lim_15_0 = bit_and lim 0xffff;
  base_15_0 = bit_and base 0xffff;
  base_23_16 = bit_and (base >>> 16) 0xff;
  seg_type = type % 2 ^ 4;
  s = 1;
  dpl = dpl % 2 ^ 2;
  p = 1;
  lim_19_16 = (u32 lim >>> 16) % 2 ^ 4;
  avl = 0;
  rsv1 = 0;
  db = 1;
  g = 0;
  base_31_24 = (u32 base >>> 24) % 2 ^ 8;
}

abbrev pub sts_cg32 : ℕ
sts_cg32 = 0xc

abbrev pub sts_ig32 : ℕ
sts_ig32 = 0xe

abbrev pub sts_tg32 : ℕ
sts_tg32 = 0xf

-- `struct Gatedesc`
pub record Gatedesc : Type 0 where
  pub off_15_0 : ℕ
  pub sel : ℕ
  pub args : ℕ
  pub rsv1 : ℕ
  pub gate_type : ℕ
  pub s : ℕ
  pub dpl : ℕ
  pub p : ℕ
  pub off_31_16 : ℕ

-- `SETGATE(gate, istrap, sel, off, dpl)`: what it leaves in `gate`
unfoldable pub setgate : Bool → ℕ → ℕ → ℕ → Gatedesc
setgate istrap sel off dpl = record {
  off_15_0 = bit_and (u32 off) 0xffff;
  sel = sel % 2 ^ 16;
  args = 0;
  rsv1 = 0;
  gate_type = (if istrap then sts_tg32 else sts_ig32) % 2 ^ 4;
  s = 0;
  dpl = dpl % 2 ^ 2;
  p = 1;
  off_31_16 = (u32 off >>> 16) % 2 ^ 16;
}

-- `SETCALLGATE(gate, sel, off, dpl)`
unfoldable pub setcallgate : ℕ → ℕ → ℕ → Gatedesc
setcallgate sel off dpl = record {
  off_15_0 = bit_and (u32 off) 0xffff;
  sel = sel % 2 ^ 16;
  args = 0;
  rsv1 = 0;
  gate_type = sts_cg32 % 2 ^ 4;
  s = 0;
  dpl = dpl % 2 ^ 2;
  p = 1;
  off_31_16 = (u32 off >>> 16) % 2 ^ 16;
}
