-- ===== src/Boot/Kernel.antt =====
-- `bootmain` loads an ELF image.
use jos.Base.{
  ℕ, zero, suc, ◌+◌, ◌-◌, ◌*◌, ◌%◌, ◌^◌, ◌≤◌, ◌<◌, ◌≡◌, ◌≢◌, ◌⊎◌, refl, ap, sym, ◌∙◌, true, false,
  some, arith, dec_lt, ◌==◌,
}
use mathlib.Core.Path.{subst}
use jos.Types.{add32}
use jos.Memory.{Mem}
use jos.Ports.{Ports, outw}
use jos.Boot.{
  sectsize, elfhdr, elf_magic, load32, e_magic, e_entry, e_phoff, e_phnum, p_offset, p_pa, p_memsz,
  entered, bad, readseg, load_segments, load_kernel, bootmain, sizeof_proghdr,
}
use jos.Boot.Drive.{Drive}
use jos.Boot.Segment.{Loaded, sectors_end, readseg-Loaded}

-- The kernel image starts at the second sector of the disk.
abbrev pub image : (ℕ → ℕ) → ℕ → ℕ
image byte i = byte (sectsize + i)

-- The `k`-th program header of an image.
abbrev pub header : (ℕ → ℕ) → ℕ → ℕ
header img k = e_phoff img 0 + sizeof_proghdr * k

-- The `n` bytes from `p` on are not in the sectors that the segment is read into.
abbrev pub Spares : (ℕ → ℕ) → ℕ → ℕ → ℕ → Type 0
Spares img k p n =
    let ph = header img k in
    (sectors_end (p_pa img ph + p_memsz img ph) ≤ p)
    ⊎ (p + n ≤ p_pa img ph - p_pa img ph % sectsize)

-- What `bootmain` needs of an image: its program headers are in the first page; each segment ends in
-- the address space, lies at the same place within its sectors in memory and in the image, and is
-- read to sectors that hold neither the first page nor a segment that was loaded before.
pub record IsKernel (img : ℕ → ℕ) : Type 0 where
  pub magic : e_magic img 0 ≡ elf_magic
  pub headers : header img (e_phnum img 0) ≤ sectsize * 8
  pub fits :
      (k : ℕ)
      → k < e_phnum img 0
      → p_pa img (header img k) + p_memsz img (header img k) + sectsize ≤ 2 ^ 32
  pub small : (k : ℕ) → k < e_phnum img 0 → p_offset img (header img k) < 2 ^ 32
  pub aligned :
      (k : ℕ)
      → k < e_phnum img 0
      → p_pa img (header img k) % sectsize ≡ p_offset img (header img k) % sectsize
  pub spares_page : (k : ℕ) → k < e_phnum img 0 → Spares img k elfhdr (sectsize * 8)
  pub spares_segments :
      (j k : ℕ)
      → j < k
      → k < e_phnum img 0
      → Spares img k (p_pa img (header img j)) (p_memsz img (header img j))

-- The first page of the image stands at ELFHDR.
abbrev pub HasPage : (ℕ → ℕ) → Mem → Type 0
HasPage img m = (i : ℕ) → i < sectsize * 8 → m (elfhdr + i) ≡ img i

-- The segment stands where it is to be loaded.
abbrev pub HasSegment : (ℕ → ℕ) → Mem → ℕ → Type 0
HasSegment img m k =
    (i : ℕ)
    → i < p_memsz img (header img k)
    → m (p_pa img (header img k) + i) ≡ img (p_offset img (header img k) + i)

load32-page :
    (img : ℕ → ℕ) (m : Mem) (x : ℕ)
    → HasPage img m
    → x + 4 ≤ sectsize * 8
    → (p : ℕ) → p ≡ elfhdr + x
    → load32 m p ≡ load32 img x
load32-page img m x page lt p e = omega (
  arith,
  ap m e,
  page x (omega arith),
  byte_at 1 (omega arith),
  byte_at 2 (omega arith),
  byte_at 3 (omega arith),
)
  where
    byte_at : (i : ℕ) → i < 4 → m (p + i) ≡ img (x + i)
    byte_at i h =
        let f : p + i ≡ elfhdr + (x + i) = omega arith in ap m f ∙ page (x + i) (omega arith)

module _ {W : Type 0} (io : Ports W) (polls : ℕ) where
  load_kernel_good :
      (s s' : Mem × W)
      → e_magic s.0 elfhdr ≡ elf_magic
      → load_segments io polls (e_phnum s.0 elfhdr) (add32 elfhdr (e_phoff s.0 elfhdr)) s ≡ some s'
      → load_kernel io polls s ≡ some (entered (e_entry s'.0 elfhdr), s')
  unfolding load_kernel
  load_kernel_good s s' good e =
      let t : (e_magic s.0 elfhdr == elf_magic) ≡ true = ground arith in rw (load_kernel, t, e) refl

  load_kernel_bad :
      (s : Mem × W)
      → e_magic s.0 elfhdr ≢ elf_magic
      → load_kernel io polls s
        ≡ some (bad, (s.0, outw io 0x8a00 0x8e00 (outw io 0x8a00 0x8a00 s.1)))
  unfolding load_kernel
  load_kernel_bad s wrong =
      let t : (e_magic s.0 elfhdr == elf_magic) ≡ false = ground arith in rw (load_kernel, t) refl

module _ {W : Type 0} (io : Ports W) (byte : ℕ → ℕ) (polls : ℕ) (drive : Drive io byte polls)
    (kernel : IsKernel (image byte)) where
  abbrev img : ℕ → ℕ
  img = image byte

  -- One round of the loop: the program header is read from the page in memory.
  readseg-header :
      (k ph : ℕ) (s : Mem × W)
      → k < e_phnum img 0
      → ph ≡ elfhdr + header img k
      → HasPage img s.0
      → (s' : Mem × W) × (readseg io polls (p_pa s.0 ph) (p_memsz s.0 ph) (p_offset s.0 ph) s
          ≡ some s')
        × Loaded byte s.0 s'.0
            (p_pa img (header img k))
            (p_memsz img (header img k))
            (p_offset img (header img k))
  readseg-header k ph s lt e page =
      let h = header img k in
      let field = λ (i : ℕ) (le : i + 4 ≤ 32).
        load32-page img s.0 (h + i) page (omega (arith, kernel.headers)) (ph + i) (omega arith) in
      let pa : p_pa s.0 ph ≡ p_pa img h = field 12 (omega arith) in
      let memsz : p_memsz s.0 ph ≡ p_memsz img h = field 20 (omega arith) in
      let offset : p_offset s.0 ph ≡ p_offset img h = field 4 (omega arith) in
      rw (pa, memsz, offset)
        (readseg-Loaded io byte polls drive (p_pa img h) (p_memsz img h) (p_offset img h) s
          (kernel.fits k lt) (kernel.small k lt) (kernel.aligned k lt))

  load_segments-HasSegment :
      (left k ph : ℕ) (s : Mem × W)
      → k + left ≡ e_phnum img 0
      → ph ≡ elfhdr + header img k
      → HasPage img s.0
      → ((j : ℕ) → j < k → HasSegment img s.0 j)
      → (s' : Mem × W) × (load_segments io polls left ph s ≡ some s')
        × HasPage img s'.0
        × ((j : ℕ) → j < e_phnum img 0 → HasSegment img s'.0 j)
  unfolding load_segments
  load_segments-HasSegment zero k ph s e f page done = (s, refl, page, λ j h. done j (omega arith))
  load_segments-HasSegment (suc left) k ph s e f page done =
      let lt : k < e_phnum img 0 = omega arith in
      let (s', returns, now) = readseg-header k ph s lt f page in
      let page' : HasPage img s'.0 =
        λ i h. now.same (elfhdr + i) (omega (arith, kernel.spares_page k lt)) ∙ page i h in
      let own : HasSegment img s'.0 k = λ i h. now.image i h ∙ ap byte (omega arith) in
      let done' : (j : ℕ) → j < k + 1 → HasSegment img s'.0 j = λ j h. elim (dec_lt j k) [
        | yes before ↦ λ i h'.
            now.same (p_pa img (header img j) + i)
              (omega (arith, kernel.spares_segments j k before lt))
            ∙ done j before i h'
        | no here ↦ let e' : k ≡ j = omega arith in subst (λ t. HasSegment img s'.0 t) e' own
      ] in
      let (s'', rest, page'', after) =
        load_segments-HasSegment left (k + 1) (ph + sizeof_proghdr) s' (omega arith) (omega arith)
          page' done' in
      (s'', rw returns rest, page'', after)

  load_kernel-HasSegment :
      (s : Mem × W)
      → HasPage img s.0
      → (s' : Mem × W) × (load_kernel io polls s ≡ some (entered (e_entry img 0), s'))
        × ((k : ℕ) → k < e_phnum img 0 → HasSegment img s'.0 k)
  load_kernel-HasSegment s page =
      let field = λ (i : ℕ) (le : i + 4 ≤ 52) (t : Mem) (p : HasPage img t).
        load32-page img t i p (omega arith) (elfhdr + i) refl in
      let count : e_phnum s.0 elfhdr ≡ e_phnum img 0 =
        omega (arith, page 44 (omega arith), page 45 (omega arith)) in
      let start : add32 elfhdr (e_phoff s.0 elfhdr) ≡ elfhdr + header img 0 =
        omega (arith, kernel.headers, field 28 (omega arith) s.0 page) in
      let (s', returns, page', done) =
        load_segments-HasSegment (e_phnum img 0) 0 (elfhdr + header img 0) s (omega arith) refl page
          (λ j h. absurd (omega arith)) in
      let entry : e_entry s'.0 elfhdr ≡ e_entry img 0 = field 24 (omega arith) s'.0 page' in
      (
        s',
        load_kernel_good io polls s s' (field 0 (omega arith) s.0 page ∙ kernel.magic)
              (rw (count, start) returns)
            ∙ rw entry refl,
        done,
      )

  -- For an image that is a kernel (`IsKernel`) `bootmain` returns: it enters the kernel at its entry
  -- point, and every segment stands in memory where its program header says.
  pub bootmain-HasSegment :
      (s : Mem × W)
      → (s' : Mem × W) × (bootmain io polls s ≡ some (entered (e_entry img 0), s'))
        × ((k : ℕ) → k < e_phnum img 0 → HasSegment img s'.0 k)
  unfolding bootmain
  bootmain-HasSegment s =
      let (s1, returns, first) =
        readseg-Loaded io byte polls drive elfhdr (sectsize * 8) 0 s (omega arith) (omega arith)
          refl in
      let page : HasPage img s1.0 = λ i h. first.image i h ∙ ap byte (omega arith) in
      let (s2, rest, done) = load_kernel-HasSegment s1 page in (s2, rw returns rest, done)

module _ {W : Type 0} (io : Ports W) (byte : ℕ → ℕ) (polls : ℕ) (drive : Drive io byte polls) where
  -- Where the image does not start with the magic number, `bootmain` stops after its two writes to
  -- port 0x8A00, and memory has changed only in the first page.
  pub bootmain_bad :
      (s : Mem × W)
      → e_magic (image byte) 0 ≢ elf_magic
      → (m' : Mem) × (w' : W) × (bootmain io polls s
          ≡ some (bad, (m', outw io 0x8a00 0x8e00 (outw io 0x8a00 0x8a00 w'))))
        × ((q : ℕ) → (q < elfhdr) ⊎ (elfhdr + sectsize * 8 ≤ q) → m' q ≡ s.0 q)
  unfolding bootmain
  bootmain_bad s wrong =
      let (s', returns, first) =
        readseg-Loaded io byte polls drive elfhdr (sectsize * 8) 0 s (omega arith) (omega arith)
          refl in
      let page : HasPage (image byte) s'.0 = λ i h. first.image i h ∙ ap byte (omega arith) in
      let same = load32-page (image byte) s'.0 0 page (omega arith) elfhdr refl in
      (
        s'.0,
        s'.1,
        rw returns (load_kernel_bad io polls s' (λ e. wrong (sym same ∙ e))),
        λ q h. first.same q (omega arith),
      )
