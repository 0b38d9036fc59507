-- ===== src/Console/Typing.antt =====
-- The console as a terminal: `getchar` and `cputchar` of kern/console.c over what the serial port and
-- the keyboard have received.
pub mod Kept
pub mod Taken
pub mod Reader
use jos.Base.{
  ℕ, ◌+◌, ◌≤◌, ◌<◌, ◌≡◌, ◌≢◌, ◌⊎◌, Bool, true, false, List, [], ◌∷◌, ◌++◌, bit_and, length,
}
use jos.Ports.{Ports, inb, outb}
use jos.Console.Buffer.{Cons}
use jos.Console.Buffer.Queue.{IsValid, contents}
use jos.Console.Buffer.Drain.{arrived}
use jos.Console.Keyboard.{decode}
use jos.Console.Output.{Machine, com1, com_lsr, cons_putc}
use jos.Console.Devices.{kbstatp, kbdatap, mono_base, cga_base}

-- `cputchar`, which leaves the input buffer
abbrev pub cputchar : {W : Type 0} → Ports W → ℕ → Machine W × Cons → Machine W × Cons
cputchar io c (s, cons) = (cons_putc io c s, cons)

-- The status bit that tells whether something waits.
abbrev pub ready : List ℕ → ℕ
ready [] = 0
ready (c ∷ cs) = 1

-- The ports that are written when a character is printed: the data register of the serial port, the
-- parallel port, and the registers of the display.
abbrev pub IsOutput : ℕ → Type 0
IsOutput port = (port ≡ com1) ⊎ ((0x378 ≤ port) × (port ≤ 0x3d5))

-- The serial port and the keyboard controller, as their documentation says: when they hold received
-- bytes and scan codes, what the status registers tell, that reading a data register takes the first
-- one, and that other reads, and printing, take none.
pub record Receivers {W : Type 0} (io : Ports W) : Type 1 where
  pub Holds : W → List ℕ → List ℕ → Type 0
  pub serial_status :
      (w : W) (cs ks : List ℕ) → Holds w cs ks → bit_and (inb io (com1 + com_lsr) w).0 1 ≡ ready cs
  pub key_status :
      (w : W) (cs ks : List ℕ) → Holds w cs ks → bit_and (inb io kbstatp w).0 1 ≡ ready ks
  pub serial_data :
      (w : W) (c : ℕ) (cs ks : List ℕ)
      → Holds w (c ∷ cs) ks
      → ((inb io com1 w).0 ≡ c) × Holds (inb io com1 w).1 cs ks
  pub key_data :
      (w : W) (cs : List ℕ) (k : ℕ) (ks : List ℕ)
      → Holds w cs (k ∷ ks)
      → ((inb io kbdatap w).0 ≡ k) × Holds (inb io kbdatap w).1 cs ks
  pub reads :
      (port : ℕ) (w : W) (cs ks : List ℕ)
      → port ≢ com1
      → port ≢ kbdatap
      → Holds w cs ks
      → Holds (inb io port w).1 cs ks
  pub writes :
      (port v : ℕ) (w : W) (cs ks : List ℕ)
      → IsOutput port
      → Holds w cs ks
      → Holds (outb io port v w) cs ks

-- What the keyboard driver makes of scan codes, and the modifiers that it is left with.
unfoldable pub decoded : ℕ → List ℕ → List ℕ
decoded shift [] = []
decoded shift (k ∷ ks) = (decode shift k).char ∷ decoded (decode shift k).shift ks

unfoldable pub shift_after : ℕ → List ℕ → ℕ
shift_after shift [] = shift
shift_after shift (k ∷ ks) = shift_after (decode shift k).shift ks

-- Scan codes among which Ctrl-Alt-Del is not.
unfoldable pub AreCalm : ℕ → List ℕ → Type 0
AreCalm shift [] = 0 < 1
AreCalm shift (k ∷ ks) = ((decode shift k).reboot ≡ false) × AreCalm (decode shift k).shift ks

-- Characters; a 0 is none.
abbrev pub AreChars : List ℕ → Type 0
AreChars [] = 0 < 1
AreChars (c ∷ cs) = (c ≢ 0) × AreChars cs

module _ {W : Type 0} (io : Ports W) (receivers : Receivers io) where
  -- The devices hold bytes and scan codes, the serial port was found, and the modifiers are `shift`.
  pub record Ready (bytes scans : List ℕ) (shift : ℕ) (s : Machine W) : Type 0 where
    pub holds : receivers.Holds s.devices bytes scans
    pub exists : s.serial_exists ≡ true
    pub same_shift : s.shift ≡ shift
    pub crt_port : (s.addr_6845 ≡ mono_base) ⊎ (s.addr_6845 ≡ cga_base)

  -- What waits in the buffer, what the serial port holds and what the keys make are the characters
  -- `cs`, which fit the buffer.
  pub record Typed (fuel : ℕ) (s : Machine W × Cons) (cs : List ℕ) : Type 0 where
    pub bytes : List ℕ
    pub scans : List ℕ
    pub shift : ℕ
    pub machine : Ready bytes scans shift s.0
    pub calm : AreCalm shift scans
    pub valid : IsValid s.1
    pub all : contents s.1 ++ arrived bytes ++ arrived (decoded shift scans) ≡ cs
    pub few_bytes : length bytes < fuel
    pub few_scans : length scans < fuel
    pub fits : length cs ≤ 511
    pub chars : AreChars cs
