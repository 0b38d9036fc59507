-- ===== src/Ports.antt =====
-- inc/x86.h: the instructions that read and write I/O ports. What the devices do is a parameter:
-- `W` is their state, and reads may change it.
use jos.Base.{ℕ, zero, suc, ◌+◌, ◌%◌, ◌^◌}
use jos.Memory.{Mem}
use jos.Block.{store32}

-- The machine's `in` and `out`, by port: a read gives a value and the next state.
pub record Ports (W : Type 0) : Type 0 where
  pub read8 : ℕ → W → ℕ × W
  pub read32 : ℕ → W → ℕ × W
  pub write8 : ℕ → ℕ → W → W
  pub write16 : ℕ → ℕ → W → W

module _ {W : Type 0} (io : Ports W) where
  abbrev pub inb : ℕ → W → ℕ × W
  inb port w = ((io.read8 port w).0 % 2 ^ 8, (io.read8 port w).1)

  abbrev pub inl : ℕ → W → ℕ × W
  inl port w = ((io.read32 port w).0 % 2 ^ 32, (io.read32 port w).1)

  abbrev pub outb : ℕ → ℕ → W → W
  outb port v w = io.write8 port (v % 2 ^ 8) w

  abbrev pub outw : ℕ → ℕ → W → W
  outw port v w = io.write16 port (v % 2 ^ 16) w

  -- `cld; repne insl`: `cnt` words go to memory from `addr` on
  unfoldable pub insl : ℕ → ℕ → ℕ → Mem × W → Mem × W
  insl port addr zero (m, w) = (m, w)
  insl port addr (suc cnt) (m, w) =
      let (word, w') = inl port w in insl port (addr + 4) cnt (store32 m addr word, w')
