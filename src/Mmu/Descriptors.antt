-- ===== src/Mmu/Descriptors.antt =====
-- What the processor reads out of the descriptors that SEG, SEG16 and SETGATE build.
use jos.Base.{ℕ, ◌+◌, ◌-◌, ◌*◌, ◌/◌, ◌%◌, ◌^◌, ◌<◌, ◌≡◌, arith, Bool, if◌then◌else◌}
use jos.Base.Bits.{bit_and_mask}
use jos.Types.{u32_mod}
use jos.Mmu.{Segdesc, seg, seg16, Gatedesc, setgate, sts_tg32, sts_ig32}

-- The three parts of the base, put together.
abbrev pub base_of : Segdesc → ℕ
base_of d = d.base_31_24 * 2 ^ 24 + d.base_23_16 * 2 ^ 16 + d.base_15_0

-- The highest offset in the segment, in bytes or in pages as the granularity bit says.
abbrev pub limit_of : Segdesc → ℕ
limit_of d = let field = d.lim_19_16 * 2 ^ 16 + d.lim_15_0 in field * (1 + d.g * 4095) + d.g * 4095

-- A segment that SEG describes has the given base, and its limit is `lim` with the last page
-- filled up.
pub seg_lem :
    (type base lim dpl : ℕ)
    → base < u32_mod
    → lim < u32_mod
    → (base_of (seg type base lim dpl) ≡ base)
      × (limit_of (seg type base lim dpl) ≡ lim - lim % 2 ^ 12 + 4095)
unfolding seg
seg_lem type base lim dpl hb hl = (
  omega (arith, bit_and_mask 16 base, bit_and_mask 8 (base / 2 ^ 16)),
  omega (arith, bit_and_mask 16 (lim / 2 ^ 12)),
)

-- A segment that SEG16 describes has the given base and, below 1MB, the given limit.
pub seg16_lem :
    (type base lim dpl : ℕ)
    → base < u32_mod
    → lim < 2 ^ 20
    → (base_of (seg16 type base lim dpl) ≡ base) × (limit_of (seg16 type base lim dpl) ≡ lim)
unfolding seg16
seg16_lem type base lim dpl hb hl = (
  omega (arith, bit_and_mask 16 base, bit_and_mask 8 (base / 2 ^ 16)),
  omega (arith, bit_and_mask 16 lim),
)

abbrev pub offset_of : Gatedesc → ℕ
offset_of d = d.off_31_16 * 2 ^ 16 + d.off_15_0

-- A gate that SETGATE sets up is present and leads to the handler `off` in segment `sel`, from
-- privilege level `dpl` on, and it is a trap gate exactly where `istrap` says so.
pub setgate_lem :
    (istrap : Bool) (sel off dpl : ℕ)
    → sel < 2 ^ 16
    → off < u32_mod
    → dpl < 4
    → let d = setgate istrap sel off dpl in
      (offset_of d ≡ off)
      × (d.sel ≡ sel)
      × (d.dpl ≡ dpl)
      × (d.p ≡ 1)
      × (d.gate_type ≡ (if istrap then sts_tg32 else sts_ig32))
unfolding setgate
setgate_lem istrap sel off dpl hs ho hd = (
  omega (arith, bit_and_mask 16 (off % u32_mod)),
  omega arith,
  omega arith,
  omega arith,
  ground arith,
)
