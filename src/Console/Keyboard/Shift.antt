-- ===== src/Console/Keyboard/Shift.antt =====
-- The modifiers that the keyboard driver keeps, checked over every state and scan code.
use jos.Base.{
  ℕ, ◌+◌, ◌*◌, ◌/◌, ◌%◌, ◌<◌, ◌≡◌, refl, Bool, true, ◌&&◌, bit_and, ◌==◌, ltb, if◌then◌else◌, arith,
}
use jos.Base.Bits.{all_below, all_below_sound}
use jos.Console.Keyboard.{decode, complement, shift_bit, ctl_bit, alt_bit}

-- For state `s` and scan code `c`: a byte is returned, and only 0xE0 leaves the escape flag set.
abbrev is_bounded : ℕ → ℕ → Bool
is_bounded s c = let d = decode s c in ltb d.shift (if c == 0xe0 then 128 else 64) && ltb d.char 256

bounded_table : all_below 32768 (λ n. is_bounded (n / 256) (n % 256)) ≡ true
unfolding all_below decode
bounded_table = refl

-- In every state of the seven flags, for every scan code, the driver stays in those states, returns
-- a byte, and keeps an E0 escape for one byte only.
pub decode_bounds :
    (s c : ℕ)
    → s < 128
    → c < 256
    → ((decode s c).shift < (if c == 0xe0 then 128 else 64)) × ((decode s c).char < 256)
decode_bounds s c hs hc =
    let n = 256 * s + c in
    let e : n / 256 ≡ s = omega arith in
    let f : n % 256 ≡ c = omega arith in
    let h = all_below_sound 32768 _ n bounded_table (omega arith) in
    let h' : is_bounded s c ≡ true = rw (e, f) at h in ground arith

-- The keys that hold a modifier down.
pub data Holds : ℕ → ℕ → Type 0 where
  ctl : Holds 0x1d ctl_bit
  left_shift : Holds 0x2a shift_bit
  right_shift : Holds 0x36 shift_bit
  alt : Holds 0x38 alt_bit

abbrev is_held : ℕ → ℕ → ℕ → Bool
is_held key bit s =
    let down = (decode s key).shift in
    (bit_and down bit == bit)
    && (bit_and down (complement bit) == bit_and s (complement bit))
    && ((decode down (key + 0x80)).shift == bit_and s (complement bit))

held_table :
    all_below 64 (λ s.
      is_held 0x1d ctl_bit s
      && is_held 0x2a shift_bit s
      && is_held 0x36 shift_bit s
      && is_held 0x38 alt_bit s)
    ≡ true
unfolding all_below decode
held_table = refl

Holds-is_held : {key bit : ℕ} → Holds key bit → (s : ℕ) → s < 64 → is_held key bit s ≡ true
Holds-is_held ctl s h = ground (arith, all_below_sound 64 _ s held_table h)
Holds-is_held left_shift s h = ground (arith, all_below_sound 64 _ s held_table h)
Holds-is_held right_shift s h = ground (arith, all_below_sound 64 _ s held_table h)
Holds-is_held alt s h = ground (arith, all_below_sound 64 _ s held_table h)

-- Pressing Shift, Ctrl or Alt sets its flag and no other, and releasing it clears that flag only.
press_release :
    {key bit : ℕ}
    → Holds key bit
    → (s : ℕ) → s < 64
    → let down = (decode s key).shift in
      (bit_and down bit ≡ bit)
      × (bit_and down (complement bit) ≡ bit_and s (complement bit))
      × ((decode down (key + 0x80)).shift ≡ bit_and s (complement bit))
press_release hold s h =
    let t = Holds-is_held hold s h in (ground arith, ground arith, ground arith)
