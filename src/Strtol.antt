-- ===== src/Strtol.antt =====
-- `strtol` of lib/string.c. A `long` is a 32-bit word, and wraps round; the loops that run to the end
-- of the number have fuel.
pub mod Digits
pub mod RoundTrip
use jos.Base.{
  ℕ, zero, suc, ◌+◌, ◌-◌, ◌*◌, Bool, true, false, ◌&&◌, ◌||◌, Option, none, some, ◌==◌, leb,
  if◌then◌else◌, ◌>>=◌,
}
use jos.Types.{u32, sub32}
use jos.Memory.{Mem}

-- `while (*s == ' ' || *s == '\t') s++;`
unfoldable pub skip_blanks : ℕ → Mem → ℕ → Option ℕ
skip_blanks zero m s = none
skip_blanks (suc fuel) m s =
    let rest = skip_blanks fuel m (s + 1) in if m s == b' ' || m s == b'\t' then rest else some s

-- where the number goes on behind a sign, and `neg`
unfoldable pub read_sign : Mem → ℕ → ℕ × Bool
read_sign m s =
    if m s == b'+' then (s + 1, false) else if m s == b'-' then (s + 1, true) else (s, false)

-- where the digits start, and their base
unfoldable pub read_prefix : Mem → ℕ → ℕ → ℕ × ℕ
read_prefix m s base =
    if (base == 0 || base == 16) && (m s == b'0' && m (s + 1) == b'x')
    then (s + 2, 16)
    else if base == 0 && m s == b'0'
    then (s + 1, 8)
    else if base == 0
    then (s, 10)
    else (s, base)

-- `dig`, where the character is a digit or a letter
unfoldable pub digit_of : ℕ → Option ℕ
digit_of c =
    if leb b'0' c && leb c b'9'
    then some (c - b'0')
    else if leb b'a' c && leb c b'z'
    then some (c - b'a' + 10)
    else if leb b'A' c && leb c b'Z'
    then some (c - b'A' + 10)
    else none

-- the loop: the end of the number, and `val`
unfoldable pub read_digits : ℕ → Mem → ℕ → ℕ → ℕ → Option (ℕ × ℕ)
read_digits zero m base s val = none
read_digits (suc fuel) m base s val = elim (digit_of (m s)) [
  | none ↦ some (s, val)
  | some dig ↦ elim (leb base dig) [
    | true ↦ some (s, val)
    | false ↦ read_digits fuel m base (s + 1) (u32 (val * base + dig))
  ]
]

abbrev pub negate_if : Bool → ℕ × ℕ → ℕ × ℕ
negate_if neg (s, val) = (s, if neg then sub32 0 val else val)

-- `strtol(s, &endptr, base)`: `*endptr`, and the value
unfoldable pub strtol : ℕ → Mem → ℕ → ℕ → Option (ℕ × ℕ)
strtol fuel m s base = do
  start ← skip_blanks fuel m s
  let signed = read_sign m start
  let prefixed = read_prefix m signed.0 base
  result ← read_digits fuel m prefixed.1 prefixed.0 0
  some (negate_if signed.1 result)
