-- ===== src/Boot.antt =====
-- boot/main.c and inc/elf.h: the boot loader. Loops that wait have fuel, and are `none` where it
-- runs out: `polls` bounds the reads of the drive's status.
pub mod Drive
pub mod Sector
pub mod Segment
pub mod Kernel
use jos.Base.{
  ℕ, zero, suc, ◌+◌, ◌*◌, ◌/◌, ◌^◌, bit_and, bit_or, Bool, true, false, Option, none, some, ◌==◌,
  ltb, if◌then◌else◌, ◌>>=◌,
}
use jos.Base.Bits.{◌>>>◌}
use jos.Types.{add32}
use jos.Memory.{Mem}
use jos.Ports.{Ports, inb, outb, outw, insl}

abbrev pub sectsize : ℕ
sectsize = 512

-- ELFHDR, the scratch space for the header
abbrev pub elfhdr : ℕ
elfhdr = 0x10000

abbrev pub elf_magic : ℕ
elf_magic = 0x464C457F

-- A field of a structure in memory, the low byte first.
abbrev pub load16 : Mem → ℕ → ℕ
load16 m p = m p + m (p + 1) * 2 ^ 8

abbrev pub load32 : Mem → ℕ → ℕ
load32 m p = m p + m (p + 1) * 2 ^ 8 + m (p + 2) * 2 ^ 16 + m (p + 3) * 2 ^ 24

-- `struct Elf`: the fields that are read, by their offsets
abbrev pub e_magic : Mem → ℕ → ℕ
e_magic m elf = load32 m elf

abbrev pub e_entry : Mem → ℕ → ℕ
e_entry m elf = load32 m (elf + 24)

abbrev pub e_phoff : Mem → ℕ → ℕ
e_phoff m elf = load32 m (elf + 28)

abbrev pub e_phnum : Mem → ℕ → ℕ
e_phnum m elf = load16 m (elf + 44)

-- `struct Proghdr`
abbrev pub sizeof_proghdr : ℕ
sizeof_proghdr = 32

abbrev pub p_offset : Mem → ℕ → ℕ
p_offset m ph = load32 m (ph + 4)

abbrev pub p_pa : Mem → ℕ → ℕ
p_pa m ph = load32 m (ph + 12)

abbrev pub p_memsz : Mem → ℕ → ℕ
p_memsz m ph = load32 m (ph + 20)

-- How `bootmain` ends: it jumps to the entry point, or it halts at `bad`.
pub data Outcome : Type 0 where
  entered : ℕ → Outcome
  bad : Outcome

module _ {W : Type 0} (io : Ports W) (polls : ℕ) where
  -- `while ((inb(0x1F7) & 0xC0) != 0x40)`
  unfoldable pub wait_loop : ℕ → W → Option W
  wait_loop zero w = none
  wait_loop (suc fuel) w =
      let (status, w') = inb io 0x1f7 w in
      let rest = wait_loop fuel w' in if bit_and status 0xc0 == 0x40 then some w' else rest

  unfoldable pub waitdisk : W → Option W
  unfolding wait_loop
  waitdisk w = wait_loop polls w

  -- the six `outb` of `readsect`
  unfoldable pub request : ℕ → W → W
  request offset w =
      let w2 = outb io 0x1f2 1 w in
      let w3 = outb io 0x1f3 offset w2 in
      let w4 = outb io 0x1f4 (offset >>> 8) w3 in
      let w5 = outb io 0x1f5 (offset >>> 16) w4 in
      let w6 = outb io 0x1f6 (bit_or (offset >>> 24) 0xe0) w5 in outb io 0x1f7 0x20 w6

  unfoldable pub readsect : ℕ → ℕ → Mem × W → Option (Mem × W)
  unfolding waitdisk request insl
  readsect dst offset (m, w) = do
    idle ← waitdisk w
    ready ← waitdisk (request offset idle)
    some (insl io 0x1f0 dst (sectsize / 4) (m, ready))

  -- `while (pa < end_pa)`
  unfoldable pub seg_loop : ℕ → ℕ → ℕ → ℕ → Mem × W → Option (Mem × W)
  seg_loop zero pa end_pa offset s = none
  seg_loop (suc rounds) pa end_pa offset s = elim (ltb pa end_pa) [
    | true ↦ readsect pa offset s >>= seg_loop rounds (add32 pa sectsize) end_pa (add32 offset 1)
    | false ↦ some s
  ]

  -- `readseg(pa, count, offset)`; the rounds are enough where `pa` does not wrap round.
  unfoldable pub readseg : ℕ → ℕ → ℕ → Mem × W → Option (Mem × W)
  unfolding seg_loop
  readseg pa count offset s =
      seg_loop (count / sectsize + 3) (bit_and pa 0xfffffe00) (add32 pa count)
        (offset / sectsize + 1) s

  -- `for (; ph < eph; ph++)`, with `eph - ph` program headers left
  unfoldable pub load_segments : ℕ → ℕ → Mem × W → Option (Mem × W)
  load_segments zero ph s = some s
  load_segments (suc left) ph s =
      readseg (p_pa s.0 ph) (p_memsz s.0 ph) (p_offset s.0 ph) s
      >>= load_segments left (ph + sizeof_proghdr)

  -- how `bootmain` goes on from the header that it has read
  unfoldable pub load_kernel : Mem × W → Option (Outcome × (Mem × W))
  unfolding load_segments
  load_kernel (m, w) = elim (e_magic m elfhdr == elf_magic) [
    | true ↦ load_segments (e_phnum m elfhdr) (add32 elfhdr (e_phoff m elfhdr)) (m, w) >>= λ s.
        some (entered (e_entry s.0 elfhdr), s)
    | false ↦ some (bad, (m, outw io 0x8a00 0x8e00 (outw io 0x8a00 0x8a00 w)))
  ]

  unfoldable pub bootmain : Mem × W → Option (Outcome × (Mem × W))
  bootmain s = readseg elfhdr (sectsize * 8) 0 s >>= load_kernel
