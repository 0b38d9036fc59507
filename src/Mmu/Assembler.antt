-- ===== src/Mmu/Assembler.antt =====
-- SEG in assembly files, which lay a descriptor out byte by byte, against SEG in C.
use jos.Base.{
  ℕ, ◌+◌, ◌-◌, ◌*◌, ◌/◌, ◌%◌, ◌^◌, ◌<◌, ◌≡◌, arith, List, [], ◌∷◌, ◌++◌, bit_and, bit_or, get_or,
  set,
}
use jos.Base.Bits.{◌>>>◌, bit_and_mask, bit_or_fields}
use jos.Types.{u32_mod}
use jos.Mmu.{Segdesc, seg}
use jos.Mmu.Descriptors.{base_of, limit_of, seg_lem}

-- the directive `.word`: two bytes, the low one first
abbrev pub word : ℕ → List ℕ
word v = v % 2 ^ 8 ∷ v / 2 ^ 8 % 2 ^ 8 ∷ []

-- `SEG(type, base, lim)` under `__ASSEMBLER__`, where `.byte` keeps eight bits
unfoldable pub seg_bytes : ℕ → ℕ → ℕ → List ℕ
seg_bytes type base lim =
    word (bit_and (lim >>> 12) 0xffff)
    ++ (word (bit_and base 0xffff)
        ++ (bit_and (base >>> 16) 0xff % 2 ^ 8
            ∷ bit_or 0x90 type % 2 ^ 8
            ∷ bit_or 0xc0 (bit_and (lim >>> 28) 0xf) % 2 ^ 8
            ∷ bit_and (base >>> 24) 0xff % 2 ^ 8
            ∷ []))

-- A `struct Segdesc` in memory: its bit fields in order, from the lowest bit of each byte on.
unfoldable pub segdesc_bytes : Segdesc → List ℕ
segdesc_bytes d =
    word d.lim_15_0
    ++ (word d.base_15_0
        ++ (d.base_23_16
            ∷ (d.seg_type + d.s * 2 ^ 4 + d.dpl * 2 ^ 5 + d.p * 2 ^ 7)
            ∷ (d.lim_19_16 + d.avl * 2 ^ 4 + d.rsv1 * 2 ^ 5 + d.db * 2 ^ 6 + d.g * 2 ^ 7)
            ∷ d.base_31_24
            ∷ []))

-- For 32-bit numbers, a segment that SEG of C describes has the bytes that SEG of the assembler lays
-- out, with the privilege level in two bits of the sixth. It has the given base, and its limit is
-- `lim` with the last page filled up.
pub seg-seg_bytes :
    (type base lim dpl : ℕ)
    → type < 2 ^ 4
    → base < u32_mod
    → lim < u32_mod
    → dpl < 4
    → let bytes = seg_bytes type base lim in
      (segdesc_bytes (seg type base lim dpl) ≡ set bytes 5 (get_or bytes 5 0 + dpl * 2 ^ 5))
      × (base_of (seg type base lim dpl) ≡ base)
      × (limit_of (seg type base lim dpl) ≡ lim - lim % 2 ^ 12 + 4095)
unfolding segdesc_bytes seg_bytes seg
seg-seg_bytes type base lim dpl ht hb hl hd =
    let limits = bit_and_mask 4 (lim / 2 ^ 28) in
    let flags : bit_or 0xc0 (bit_and (lim >>> 28) 0xf) ≡ 0xc0 + lim / 2 ^ 28 % 2 ^ 4 =
      rw limits (bit_or_fields 4 12 (lim / 2 ^ 28 % 2 ^ 4) (omega arith)) in
    let access : bit_or 0x90 type ≡ 0x90 + type = bit_or_fields 4 9 type ht in
    let middle : bit_and (base >>> 16) 0xff % 2 ^ 8 ≡ bit_and (base >>> 16) 0xff =
      omega (arith, bit_and_mask 8 (base / 2 ^ 16)) in
    let high : bit_and (base >>> 24) 0xff ≡ base / 2 ^ 24 % 2 ^ 8 =
      bit_and_mask 8 (base / 2 ^ 24) in
    let read = seg_lem type base lim dpl hb hl in
    (rw (flags, access, middle, high) (ground arith), read.0, read.1)
