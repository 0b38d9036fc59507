-- ===== src/Console/Screen.antt =====
-- The text-mode display of kern/console.c: `crt_buf`, `crt_pos` and `cga_putc`, without the port
-- writes that move the hardware's cursor. A character `c` is a 32-bit word.
pub mod Bounds
pub mod Layout
use jos.Base.{
  ℕ, ◌+◌, ◌-◌, ◌*◌, ◌%◌, ◌^◌, zero, suc, List, [], ◌∷◌, ◌++◌, bit_and, bit_or, ◌==◌, ltb, leb,
  if◌then◌else◌, take, drop, replicate,
}

abbrev pub crt_rows : ℕ
crt_rows = 25

abbrev pub crt_cols : ℕ
crt_cols = 80

abbrev pub crt_size : ℕ
crt_size = crt_rows * crt_cols

pub record Screen : Type 0 where
  pub crt_buf : List ℕ
  pub crt_pos : ℕ

abbrev pub u16 : ℕ → ℕ
u16 n = n % 2 ^ 16

-- "if no attribute given, then use black on white"
unfoldable pub with_attribute : ℕ → ℕ
with_attribute c = if bit_and c 0xffffff00 == 0 then bit_or c 0x0700 else c

abbrev pub blank : ℕ
blank = 0x0720

-- `crt_buf[i] = v`. A write behind the array makes the list longer, and so stays visible.
abbrev pub put_cell : List ℕ → ℕ → ℕ → List ℕ
put_cell [] zero v = v ∷ []
put_cell [] (suc i) v = 0 ∷ put_cell [] i v
put_cell (x ∷ xs) zero v = v ∷ xs
put_cell (x ∷ xs) (suc i) v = x ∷ put_cell xs i v

unfoldable pub backspace : ℕ → Screen → Screen
backspace c s =
    if ltb 0 s.crt_pos
    then record {
      crt_buf = put_cell s.crt_buf (s.crt_pos - 1) (u16 (bit_or (bit_and c 0xffffff00) 0x20));
      crt_pos = s.crt_pos - 1;
    }
    else s

unfoldable pub carriage_return : Screen → Screen
carriage_return s = record s { crt_pos = s.crt_pos - s.crt_pos % crt_cols }

unfoldable pub newline : Screen → Screen
unfolding carriage_return
newline s = carriage_return (record s { crt_pos = u16 (s.crt_pos + crt_cols) })

unfoldable pub write : ℕ → Screen → Screen
write c s = record { crt_buf = put_cell s.crt_buf s.crt_pos (u16 c); crt_pos = u16 (s.crt_pos + 1) }

-- The `memmove` by one row and the loop that blanks the last row; cells behind them stay.
unfoldable pub scroll : Screen → Screen
scroll s =
    if leb crt_size s.crt_pos
    then record {
      crt_buf =
          take (crt_size - crt_cols) (drop crt_cols s.crt_buf)
          ++ (replicate crt_cols blank ++ drop crt_size s.crt_buf);
      crt_pos = s.crt_pos - crt_cols;
    }
    else s

-- The `switch`; `tab` is what the five calls of `cons_putc(' ')` do.
unfoldable pub dispatch : (Screen → Screen) → ℕ → Screen → Screen
unfolding backspace newline carriage_return write
dispatch tab c s =
    let code = bit_and c 0xff in
    if code == 0x08
    then backspace c s
    else if code == 0x0a
    then newline s
    else if code == 0x0d
    then carriage_return s
    else if code == 0x09
    then tab s
    else write c s

-- `cga_putc(' ')`: a blank does not reach the `tab` branch.
unfoldable pub put_blank : Screen → Screen
unfolding dispatch scroll with_attribute
put_blank s = scroll (dispatch (λ s. s) (with_attribute 0x20) s)

abbrev pub tab : Screen → Screen
tab s = put_blank (put_blank (put_blank (put_blank (put_blank s))))

unfoldable pub cga_putc : ℕ → Screen → Screen
unfolding dispatch scroll with_attribute
cga_putc c s = scroll (dispatch tab (with_attribute c) s)
