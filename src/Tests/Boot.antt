-- ===== src/Tests/Boot.antt =====
-- The boot loader with a drive that is always ready, and a disk with a kernel of one segment.
use jos.Base.{
  ℕ, zero, suc, ◌+◌, ◌-◌, ◌*◌, ◌%◌, ◌^◌, ◌≤◌, ◌<◌, ◌≡◌, ◌⊎◌, refl, ap, true, false, ◌&&◌, some,
  List, [], ◌∷◌, arith, get_or, leb, ◌==◌, if◌then◌else◌, inr,
}
use jos.Memory.{Mem}
use jos.Ports.{Ports, outw}
use jos.Boot.{elfhdr, e_entry, e_phnum, entered, bad, bootmain, p_pa, p_memsz, p_offset, sectsize}
use jos.Boot.Drive.{Drive, words_at, lba}
use jos.Boot.Kernel.{IsKernel, Spares, HasSegment, image, header, bootmain-HasSegment, bootmain_bad}

-- The magic number, e_entry = 0x100000, e_phoff = 52 and e_phnum = 1; the program header has
-- p_offset = 4096, p_pa = 0x100000 and p_memsz = 16.
abbrev elf : List ℕ
elf =
    0x7f ∷ 0x45 ∷ 0x4c ∷ 0x46 ∷ 1 ∷ 0 ∷ 0 ∷ 0 ∷ 0 ∷ 0 ∷ 0 ∷ 0 ∷ 0 ∷ 0 ∷ 0 ∷ 0 ∷ 0 ∷ 0 ∷ 0 ∷ 0 ∷ 0
    ∷ 0 ∷ 0 ∷ 0 ∷ 0 ∷ 0 ∷ 16 ∷ 0 ∷ 52 ∷ 0 ∷ 0 ∷ 0 ∷ 0 ∷ 0 ∷ 0 ∷ 0 ∷ 0 ∷ 0 ∷ 0 ∷ 0 ∷ 0 ∷ 0 ∷ 32 ∷ 0
    ∷ 1 ∷ 0 ∷ 0 ∷ 0 ∷ 0 ∷ 0 ∷ 0 ∷ 0 ∷ 1 ∷ 0 ∷ 0 ∷ 0 ∷ 0 ∷ 16 ∷ 0 ∷ 0 ∷ 0 ∷ 0 ∷ 0 ∷ 0 ∷ 0 ∷ 0 ∷ 16
    ∷ 0 ∷ 0 ∷ 0 ∷ 0 ∷ 0 ∷ 16 ∷ 0 ∷ 0 ∷ 0 ∷ []

abbrev disk : ℕ → ℕ
disk a = get_or elf (a - 512) 0 % 2 ^ 8

record Registers : Type 0 where
  written : ℕ → ℕ
  words : List ℕ

abbrev first_word : List ℕ → ℕ
first_word [] = 0
first_word (x ∷ xs) = x

abbrev other_words : List ℕ → List ℕ
other_words [] = []
other_words (x ∷ xs) = xs

module _ (byte : ℕ → ℕ) where
  abbrev write_register : ℕ → ℕ → Registers → Registers
  write_register port v w =
      if port == 0x1f7
      then record w { words = words_at byte 128 (512 * lba w.written) }
      else record w { written = λ q. if port == q then v else w.written q }

  abbrev ide : Ports Registers
  ide = record {
    read8 = λ port w. (0x40, w);
    read32 = λ port w. (first_word w.words, record w { words = other_words w.words });
    write8 = write_register;
    write16 = λ port v w. w;
  }

  latch-write_register :
      (port v other : ℕ) (w : Registers)
      → (leb 0x1f2 port && leb port 0x1f6) ≡ true
      → (write_register port v w).written other ≡ (if port == other then v else w.written other)
  latch-write_register port v other w h =
      let t : (port == 0x1f7) ≡ false = ground arith in rw t refl

  always_ready : ((a : ℕ) → byte a < 2 ^ 8) → Drive ide byte 1
  always_ready bytes = record {
    latch = λ w. w.written;
    queue = λ w. w.words;
    delay = λ w. 0;
    delay_bound = λ w. omega arith;
    byte_bound = bytes;
    latch_outb = λ port v other w h. latch-write_register port (v % 2 ^ 8) other w h;
    is_ready = λ w h. refl;
    stays_ready = λ w h. refl;
    is_busy = λ w n h. absurd (omega arith);
    goes_on = λ w n h. omega arith;
    status_queue = λ w. refl;
    read_sector = λ w h k. refl;
    read_word = λ w x xs h e.
        (ap (λ (t : List ℕ). first_word t % 2 ^ 32) e, ap (λ (t : List ℕ). other_words t) e, refl);
  }

abbrev idle : Registers
idle = record { written = λ q. 0; words = [] }

abbrev img : ℕ → ℕ
img = image disk

only : (P : ℕ → Type 0) → P 0 → (k : ℕ) → k < 1 → P k
only P p zero h = p
only P p (suc k) h = absurd (omega arith)

disk-IsKernel : IsKernel img
disk-IsKernel = record {
  magic = refl;
  headers = omega arith;
  fits =
      only (λ k. p_pa img (header img k) + p_memsz img (header img k) + sectsize ≤ 2 ^ 32)
        (omega arith);
  small = only (λ k. p_offset img (header img k) < 2 ^ 32) (omega arith);
  aligned =
      only (λ k. p_pa img (header img k) % sectsize ≡ p_offset img (header img k) % sectsize) refl;
  spares_page = only (λ k. Spares img k elfhdr (sectsize * 8)) (inr (omega arith));
  spares_segments = λ j k h h'. absurd (omega arith);
}

bootmain-HasSegment_example :
    (s' : Mem × Registers) × (bootmain (ide disk) 1 (λ q. 0, idle)
      ≡ some (entered (e_entry (image disk) 0), s'))
    × ((k : ℕ) → k < e_phnum (image disk) 0 → HasSegment (image disk) s'.0 k)
bootmain-HasSegment_example =
    bootmain-HasSegment (ide disk) disk 1 (always_ready disk (λ a. omega arith)) disk-IsKernel
      (λ q. 0, idle)

bootmain_bad_example :
    (m' : Mem) × (w' : Registers) × (bootmain (ide (λ a. 0)) 1 (λ q. 0, idle)
      ≡ some (bad, (m', outw (ide (λ a. 0)) 0x8a00 0x8e00 (outw (ide (λ a. 0)) 0x8a00 0x8a00 w'))))
    × ((q : ℕ) → (q < elfhdr) ⊎ (elfhdr + sectsize * 8 ≤ q) → m' q ≡ 0)
bootmain_bad_example =
    bootmain_bad (ide (λ a. 0)) (λ a. 0) 1 (always_ready (λ a. 0) (λ a. omega arith)) (λ q. 0, idle)
      (omega arith)
