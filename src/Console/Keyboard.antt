-- ===== src/Console/Keyboard.antt =====
-- `kbd_proc_data` of kern/console.c: what a scan code does to the modifiers, and the character that
-- it finishes. The port reads and the reboot are in Console/Devices.
mod Tables
pub mod Shift
pub mod Case
unfoldable pub use Tables.{shiftcode, togglecode, normalmap, shiftmap, ctlmap}
pub use Tables.{shift_bit, ctl_bit, alt_bit, capslock, numlock, scrolllock, e0esc, key_del}
use jos.Base.{
  ℕ, zero, suc, ◌+◌, ◌-◌, ◌^◌, Bool, false, not, ◌&&◌, List, bit_and, bit_or, bit_xor, ◌==◌, leb,
  if◌then◌else◌, get_or,
}

-- `~x` of a 32-bit word
abbrev pub complement : ℕ → ℕ
complement x = 2 ^ 32 - 1 - x

-- The static `shift`, the value that is returned, and whether Ctrl-Alt-Del was seen.
pub record Decoded : Type 0 where
  pub shift : ℕ
  pub char : ℕ
  pub reboot : Bool

-- `charcode[i][data]`, for `i = shift & (CTL | SHIFT)`
unfoldable pub charcode : ℕ → ℕ → ℕ
unfolding normalmap shiftmap ctlmap
charcode zero data' = get_or normalmap data' 0
charcode (suc zero) data' = get_or shiftmap data' 0
charcode (suc (suc _)) data' = get_or ctlmap data' 0

unfoldable pub swap_case : ℕ → ℕ
swap_case c =
    if leb b'a' c && leb c b'z' then c - 32 else if leb b'A' c && leb c b'Z' then c + 32 else c

-- a key is released
unfoldable pub release : ℕ → ℕ → Decoded
unfolding shiftcode
release shift code =
    let key = if bit_and shift e0esc == 0 then bit_and code 0x7f else code in
    record {
      shift = bit_and shift (complement (bit_or (get_or shiftcode key 0) e0esc));
      char = 0;
      reboot = false;
    }

-- the modifiers after the press of `key`
unfoldable pub press_shift : ℕ → ℕ → ℕ
unfolding shiftcode togglecode
press_shift shift key = bit_xor (bit_or shift (get_or shiftcode key 0)) (get_or togglecode key 0)

unfoldable pub press_char : ℕ → ℕ → ℕ
unfolding charcode swap_case
press_char shift key =
    let c = charcode (bit_and shift 3) key in if bit_and shift capslock == 0 then c else swap_case c

-- a key is pressed, after an E0 escape or not
unfoldable pub press : ℕ → ℕ → Decoded
unfolding press_shift press_char
press shift code =
    let escaped = not (bit_and shift e0esc == 0) in
    let key = if escaped then bit_or code 0x80 else code in
    let held = if escaped then bit_and shift (complement e0esc) else shift in
    let after = press_shift held key in
    let c = press_char after key in
    record {
      shift = after;
      char = c;
      reboot = (bit_and (complement after) 6 == 0) && (c == key_del);
    }

-- `kbd_proc_data`, for the byte that it read
unfoldable pub decode : ℕ → ℕ → Decoded
unfolding release press
decode shift code =
    if code == 0xe0
    then record { shift = bit_or shift e0esc; char = 0; reboot = false }
    else if bit_and code 0x80 == 0
    then press shift code
    else release shift code
