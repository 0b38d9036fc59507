-- ===== src/Boot/Drive.antt =====
-- The IDE drive, as its documentation describes it: what the boot loader relies on.
use jos.Base.{
  ℕ, zero, suc, ◌+◌, ◌*◌, ◌/◌, ◌%◌, ◌^◌, ◌<◌, ◌≡◌, ◌≢◌, List, [], ◌∷◌, bit_and, true, ◌&&◌, leb,
  ◌==◌, if◌then◌else◌,
}
use jos.Ports.{Ports, inb, inl, outb}

-- `n` words from byte `a` of the disk on, the low byte first.
abbrev pub word_at : (ℕ → ℕ) → ℕ → ℕ
word_at byte a = byte a + byte (a + 1) * 2 ^ 8 + byte (a + 2) * 2 ^ 16 + byte (a + 3) * 2 ^ 24

abbrev pub words_at : (ℕ → ℕ) → ℕ → ℕ → List ℕ
words_at byte zero a = []
words_at byte (suc n) a = word_at byte a ∷ words_at byte n (a + 4)

-- The sector that the registers 0x1F3 to 0x1F6 name in LBA mode.
abbrev pub lba : (ℕ → ℕ) → ℕ
lba latch = latch 0x1f3 + latch 0x1f4 * 2 ^ 8 + latch 0x1f5 * 2 ^ 16 + latch 0x1f6 % 16 * 2 ^ 24

-- `latch` are the registers that were written, `queue` the words that wait to be read, `delay` how
-- often the status is read before the drive is ready, and `byte` what the disk holds.
pub record Drive {W : Type 0} (io : Ports W) (byte : ℕ → ℕ) (patience : ℕ) : Type 0 where
  pub latch : W → ℕ → ℕ
  pub queue : W → List ℕ
  pub delay : W → ℕ
  pub delay_bound : (w : W) → delay w < patience
  pub byte_bound : (a : ℕ) → byte a < 2 ^ 8
  pub latch_outb :
      (port v other : ℕ) (w : W)
      → (leb 0x1f2 port && leb port 0x1f6) ≡ true
      → latch (outb io port v w) other ≡ (if port == other then v % 2 ^ 8 else latch w other)
  pub is_ready : (w : W) → delay w ≡ 0 → bit_and (inb io 0x1f7 w).0 0xc0 ≡ 0x40
  pub stays_ready : (w : W) → delay w ≡ 0 → delay (inb io 0x1f7 w).1 ≡ 0
  pub is_busy : (w : W) (n : ℕ) → delay w ≡ suc n → bit_and (inb io 0x1f7 w).0 0xc0 ≢ 0x40
  pub goes_on : (w : W) (n : ℕ) → delay w ≡ suc n → delay (inb io 0x1f7 w).1 ≡ n
  pub status_queue : (w : W) → queue (inb io 0x1f7 w).1 ≡ queue w
  -- command 0x20 for one sector in LBA mode
  pub read_sector :
      (w : W)
      → latch w 0x1f2 ≡ 1
      → latch w 0x1f6 / 2 ^ 5 ≡ 7
      → queue (outb io 0x1f7 0x20 w) ≡ words_at byte 128 (512 * lba (latch w))
  pub read_word :
      (w : W) (x : ℕ) (xs : List ℕ)
      → delay w ≡ 0
      → queue w ≡ x ∷ xs
      → ((inl io 0x1f0 w).0 ≡ x % 2 ^ 32)
        × (queue (inl io 0x1f0 w).1 ≡ xs)
        × (delay (inl io 0x1f0 w).1 ≡ 0)
