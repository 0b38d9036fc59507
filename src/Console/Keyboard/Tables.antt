-- ===== src/Console/Keyboard/Tables.antt =====
-- The tables of kern/console.c from scan codes to modifiers and characters, and the key codes of
-- inc/kbdreg.h. Entries that no initialiser names are 0.
use jos.Base.{ℕ, ◌+◌, ◌-◌, ◌%◌, ◌^◌, List, [], ◌∷◌, ◌++◌, set, replicate}

abbrev pub no_key : ℕ
no_key = 0

abbrev pub key_home : ℕ
key_home = 0xe0

abbrev pub key_end : ℕ
key_end = 0xe1

abbrev pub key_up : ℕ
key_up = 0xe2

abbrev pub key_dn : ℕ
key_dn = 0xe3

abbrev pub key_lf : ℕ
key_lf = 0xe4

abbrev pub key_rt : ℕ
key_rt = 0xe5

abbrev pub key_pgup : ℕ
key_pgup = 0xe6

abbrev pub key_pgdn : ℕ
key_pgdn = 0xe7

abbrev pub key_ins : ℕ
key_ins = 0xe8

abbrev pub key_del : ℕ
key_del = 0xe9

abbrev pub shift_bit : ℕ
shift_bit = 1

abbrev pub ctl_bit : ℕ
ctl_bit = 2

abbrev pub alt_bit : ℕ
alt_bit = 4

abbrev pub capslock : ℕ
capslock = 8

abbrev pub numlock : ℕ
numlock = 16

abbrev pub scrolllock : ℕ
scrolllock = 32

abbrev pub e0esc : ℕ
e0esc = 64

-- `C(x)`, stored in a byte
abbrev ctl : ℕ → ℕ
ctl x = (x + 2 ^ 8 - 0x40) % 2 ^ 8

-- designated initialisers
abbrev designate : List (ℕ × ℕ) → List ℕ → List ℕ
designate [] xs = xs
designate ((i, v) ∷ rest) xs = designate rest (set xs i v)

unfoldable pub shiftcode : List ℕ
shiftcode =
    designate
      ((0x1d, ctl_bit)
        ∷ (0x2a, shift_bit)
        ∷ (0x36, shift_bit)
        ∷ (0x38, alt_bit)
        ∷ (0x9d, ctl_bit)
        ∷ (0xb8, alt_bit)
        ∷ [])
      (replicate 256 0)

unfoldable pub togglecode : List ℕ
togglecode =
    designate ((0x3a, capslock) ∷ (0x45, numlock) ∷ (0x46, scrolllock) ∷ []) (replicate 256 0)

abbrev normalmap_low : List ℕ
normalmap_low =
    no_key ∷ 0x1b ∷ b'1' ∷ b'2' ∷ b'3' ∷ b'4' ∷ b'5' ∷ b'6' ∷ b'7' ∷ b'8' ∷ b'9' ∷ b'0' ∷ b'-'
    ∷ b'=' ∷ 0x8 ∷ 0x9 ∷ b'q' ∷ b'w' ∷ b'e' ∷ b'r' ∷ b't' ∷ b'y' ∷ b'u' ∷ b'i' ∷ b'o' ∷ b'p' ∷ b'['
    ∷ b']' ∷ 0xa ∷ no_key ∷ b'a' ∷ b's' ∷ b'd' ∷ b'f' ∷ b'g' ∷ b'h' ∷ b'j' ∷ b'k' ∷ b'l' ∷ b';'
    ∷ 0x27 ∷ b'`' ∷ no_key ∷ 0x5c ∷ b'z' ∷ b'x' ∷ b'c' ∷ b'v' ∷ b'b' ∷ b'n' ∷ b'm' ∷ b',' ∷ b'.'
    ∷ b'/' ∷ no_key ∷ b'*' ∷ no_key ∷ b' ' ∷ no_key ∷ no_key ∷ no_key ∷ no_key ∷ no_key ∷ no_key
    ∷ no_key ∷ no_key ∷ no_key ∷ no_key ∷ no_key ∷ no_key ∷ no_key ∷ b'7' ∷ b'8' ∷ b'9' ∷ b'-'
    ∷ b'4' ∷ b'5' ∷ b'6' ∷ b'+' ∷ b'1' ∷ b'2' ∷ b'3' ∷ b'0' ∷ b'.' ∷ no_key ∷ no_key ∷ no_key
    ∷ no_key ∷ []

unfoldable pub normalmap : List ℕ
normalmap =
    designate
      ((0xc7, key_home)
        ∷ (0x9c, 0xa)
        ∷ (0xb5, b'/')
        ∷ (0xc8, key_up)
        ∷ (0xc9, key_pgup)
        ∷ (0xcb, key_lf)
        ∷ (0xcd, key_rt)
        ∷ (0xcf, key_end)
        ∷ (0xd0, key_dn)
        ∷ (0xd1, key_pgdn)
        ∷ (0xd2, key_ins)
        ∷ (0xd3, key_del)
        ∷ [])
      (normalmap_low ++ replicate 168 no_key)

abbrev shiftmap_low : List ℕ
shiftmap_low =
    no_key ∷ 0x1b ∷ b'!' ∷ b'@' ∷ b'#' ∷ b'$' ∷ b'%' ∷ b'^' ∷ b'&' ∷ b'*' ∷ b'(' ∷ b')' ∷ b'_'
    ∷ b'+' ∷ 0x8 ∷ 0x9 ∷ b'Q' ∷ b'W' ∷ b'E' ∷ b'R' ∷ b'T' ∷ b'Y' ∷ b'U' ∷ b'I' ∷ b'O' ∷ b'P' ∷ b'{'
    ∷ b'}' ∷ 0xa ∷ no_key ∷ b'A' ∷ b'S' ∷ b'D' ∷ b'F' ∷ b'G' ∷ b'H' ∷ b'J' ∷ b'K' ∷ b'L' ∷ b':'
    ∷ b'"' ∷ b'~' ∷ no_key ∷ b'|' ∷ b'Z' ∷ b'X' ∷ b'C' ∷ b'V' ∷ b'B' ∷ b'N' ∷ b'M' ∷ b'<' ∷ b'>'
    ∷ b'?' ∷ no_key ∷ b'*' ∷ no_key ∷ b' ' ∷ no_key ∷ no_key ∷ no_key ∷ no_key ∷ no_key ∷ no_key
    ∷ no_key ∷ no_key ∷ no_key ∷ no_key ∷ no_key ∷ no_key ∷ no_key ∷ b'7' ∷ b'8' ∷ b'9' ∷ b'-'
    ∷ b'4' ∷ b'5' ∷ b'6' ∷ b'+' ∷ b'1' ∷ b'2' ∷ b'3' ∷ b'0' ∷ b'.' ∷ no_key ∷ no_key ∷ no_key
    ∷ no_key ∷ []

unfoldable pub shiftmap : List ℕ
shiftmap =
    designate
      ((0xc7, key_home)
        ∷ (0x9c, 0xa)
        ∷ (0xb5, b'/')
        ∷ (0xc8, key_up)
        ∷ (0xc9, key_pgup)
        ∷ (0xcb, key_lf)
        ∷ (0xcd, key_rt)
        ∷ (0xcf, key_end)
        ∷ (0xd0, key_dn)
        ∷ (0xd1, key_pgdn)
        ∷ (0xd2, key_ins)
        ∷ (0xd3, key_del)
        ∷ [])
      (shiftmap_low ++ replicate 168 no_key)

abbrev ctlmap_low : List ℕ
ctlmap_low =
    no_key
    ∷ no_key
    ∷ no_key
    ∷ no_key
    ∷ no_key
    ∷ no_key
    ∷ no_key
    ∷ no_key
    ∷ no_key
    ∷ no_key
    ∷ no_key
    ∷ no_key
    ∷ no_key
    ∷ no_key
    ∷ no_key
    ∷ no_key
    ∷ (ctl b'Q')
    ∷ (ctl b'W')
    ∷ (ctl b'E')
    ∷ (ctl b'R')
    ∷ (ctl b'T')
    ∷ (ctl b'Y')
    ∷ (ctl b'U')
    ∷ (ctl b'I')
    ∷ (ctl b'O')
    ∷ (ctl b'P')
    ∷ no_key
    ∷ no_key
    ∷ 0xd
    ∷ no_key
    ∷ (ctl b'A')
    ∷ (ctl b'S')
    ∷ (ctl b'D')
    ∷ (ctl b'F')
    ∷ (ctl b'G')
    ∷ (ctl b'H')
    ∷ (ctl b'J')
    ∷ (ctl b'K')
    ∷ (ctl b'L')
    ∷ no_key
    ∷ no_key
    ∷ no_key
    ∷ no_key
    ∷ (ctl 0x5c)
    ∷ (ctl b'Z')
    ∷ (ctl b'X')
    ∷ (ctl b'C')
    ∷ (ctl b'V')
    ∷ (ctl b'B')
    ∷ (ctl b'N')
    ∷ (ctl b'M')
    ∷ no_key
    ∷ no_key
    ∷ (ctl b'/')
    ∷ no_key
    ∷ no_key
    ∷ []

unfoldable pub ctlmap : List ℕ
ctlmap =
    designate
      ((0x97, key_home)
        ∷ (0xb5, (ctl b'/'))
        ∷ (0xc8, key_up)
        ∷ (0xc9, key_pgup)
        ∷ (0xcb, key_lf)
        ∷ (0xcd, key_rt)
        ∷ (0xcf, key_end)
        ∷ (0xd0, key_dn)
        ∷ (0xd1, key_pgdn)
        ∷ (0xd2, key_ins)
        ∷ (0xd3, key_del)
        ∷ [])
      (ctlmap_low ++ replicate 200 no_key)
