-- ===== src/Readline.antt =====
-- lib/readline.c: reading a line with echo and backspace. The terminal is a parameter: `getchar`
-- (`none`: it does not return) and `cputchar`, on the terminal's state.
pub mod Edit
pub mod Loop
pub mod Echo
use jos.Base.{
  ℕ, zero, suc, ◌+◌, ◌-◌, ◌%◌, ◌^◌, Bool, true, false, ◌&&◌, ◌||◌, Option, none, some, List, ◌==◌,
  ltb, leb, if◌then◌else◌, ◌>>=◌,
}
use jos.Memory.{Mem, store}
use jos.Printf.Flags.{negative}
use jos.Printf.Format.{codes}
use jos.Printf.Cprintf.{vcprintf}

abbrev pub buflen : ℕ
buflen = 1024

-- `iscons(fdnum)` of kern/console.c
abbrev pub iscons : ℕ → ℕ
iscons fdnum = 1

-- What a character does in the loop, by the tests of the code in their order.
pub data Key : Type 0 where
  failed erase insert enter skipped : Key

unfoldable pub key : ℕ → ℕ → Key
key i c =
    if negative c
    then failed
    else if (c == 0x08 || c == 0x7f) && ltb 0 i
    then erase
    else if leb 0x20 c && ltb i (buflen - 1)
    then insert
    else if c == 0x0a || c == 0x0d
    then enter
    else skipped

module _ {W : Type 0} (getchar : W → Option (ℕ × W)) (cputchar : ℕ → W → W)
    (text_fuel buf : ℕ) where
  abbrev pub echo : ℕ → W → W
  echo c w = if iscons 0 == 0 then w else cputchar c w

  -- `cprintf(fmt, word)`, which changes only the terminal
  abbrev pub cprintf : List ℕ → ℕ → Mem × W → Option (Mem × W)
  cprintf fmt word (m, w) =
      vcprintf cputchar (λ _. m) text_fuel fmt (λ _. word) w >>= λ r. some (m, r.0)

  -- the loop from `i` on; the result is the pointer that is returned, `none` for NULL
  unfoldable pub read_loop : ℕ → ℕ → Mem × W → Option (Option ℕ × (Mem × W))
  read_loop zero i s = none
  read_loop (suc fuel) i (m, w) = elim (getchar w) [
    | none ↦ none
    | some (c, w') ↦ elim (key i c) [
      | failed ↦ cprintf (codes "read error: %e\n") c (m, w') >>= λ t. some (none, t)
      | erase ↦ read_loop fuel (i - 1) (m, echo 0x08 w')
      | insert ↦ read_loop fuel (i + 1) (store m (buf + i) (c % 2 ^ 8), echo c w')
      | enter ↦ some (some buf, (store m (buf + i) 0, echo 0x0a w'))
      | skipped ↦ read_loop fuel i (m, w')
    ]
  ]

  -- `readline(prompt)`; no prompt is a null pointer
  unfoldable pub readline : ℕ → Option ℕ → Mem × W → Option (Option ℕ × (Mem × W))
  readline fuel none s = read_loop fuel 0 s
  readline fuel (some prompt) s = cprintf (codes "%s") prompt s >>= read_loop fuel 0
