-- ===== src/Printf.antt =====
-- lib/printfmt.c: printing numbers, and the buffer of `vsnprintf`.
pub mod Number
pub mod Flags
pub mod Format
pub mod Snprintf
pub mod Buffer
pub mod Cprintf
use jos.Base.{
  ℕ, zero, suc, ◌+◌, ◌-◌, ◌/◌, ◌%◌, ◌^◌, Option, none, some, List, [], ◌∷◌, ◌++◌, ltb, leb,
  if◌then◌else◌, get_or, replicate,
}
use jos.Memory.{Mem, store}

-- "0123456789abcdef"
abbrev pub hex_digits : List ℕ
hex_digits = 48 ∷ 49 ∷ 50 ∷ 51 ∷ 52 ∷ 53 ∷ 54 ∷ 55 ∷ 56 ∷ 57 ∷ 97 ∷ 98 ∷ 99 ∷ 100 ∷ 101 ∷ 102 ∷ []

-- The literal has 17 bytes, the last of them 0.
abbrev pub hex_digit : ℕ → ℕ
hex_digit d = get_or hex_digits d 0

-- One more call of `putch`, behind those that the rest of the function has made.
abbrev pub put_behind : Option (List ℕ) → ℕ → Option (List ℕ)
put_behind none c = none
put_behind (some cs) c = some (cs ++ (c ∷ []))

-- `putch("0123456789abcdef"[d], putdat)`; `none` where `d` is an index past the literal
abbrev pub put_digit : Option (List ℕ) → ℕ → Option (List ℕ)
put_digit cs d = if leb d 16 then put_behind cs (hex_digit d) else none

-- `printnum`: the characters that it gives to `putch`, in order, on fuel. A width of 0 or less is
-- 0 here: it pads nothing, and stays 0 or less when the code counts it down.
unfoldable pub printnum : ℕ → ℕ → ℕ → ℕ → ℕ → Option (List ℕ)
printnum zero num base width padc = none
printnum (suc fuel) num base width padc =
    let rest = printnum fuel (num / base) base (width - 1) padc in
    put_digit (if leb base num then rest else some (replicate (width - 1) padc)) (num % base)

-- `struct sprintbuf`; `cnt` is an `int`, as a 32-bit word
pub record Sprintbuf : Type 0 where
  pub buf : ℕ
  pub ebuf : ℕ
  pub cnt : ℕ

-- `sprintputch(ch, b)`, with the memory that `b->buf` points into
unfoldable pub sprintputch : ℕ → Mem × Sprintbuf → Mem × Sprintbuf
sprintputch ch (m, b) =
    if ltb b.buf b.ebuf
    then (store m b.buf (ch % 2 ^ 8), record b { buf = b.buf + 1; cnt = (b.cnt + 1) % 2 ^ 32 })
    else (m, record b { cnt = (b.cnt + 1) % 2 ^ 32 })
