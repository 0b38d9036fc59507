-- ===== src/Printf/Flags.antt =====
-- The escapes of `vprintfmt` in lib/printfmt.c: the flags, the width and the precision, and the
-- arguments. An `int` is a 32-bit word, negative from 2 ^ 31 on.
use jos.Base.{
  ℕ, ◌+◌, ◌-◌, ◌*◌, ◌^◌, Bool, true, false, ◌&&◌, Option, none, some, List, [], ◌∷◌, ◌==◌, ltb, leb,
  if◌then◌else◌,
}
use jos.Types.{u32}

abbrev pub negative : ℕ → Bool
negative w = leb (2 ^ 31) w

abbrev pub positive : ℕ → Bool
positive w = ltb 0 w && ltb w (2 ^ 31)

abbrev pub minus_one : ℕ
minus_one = 2 ^ 32 - 1

-- A `char` is signed: the `int` of a byte.
abbrev pub char_int : ℕ → ℕ
char_int c = if leb 128 c then c + (2 ^ 32 - 256) else c

-- What a %-escape sets, and the index of the next argument.
pub record Spec : Type 0 where
  pub padc : ℕ
  pub width : ℕ
  pub precision : ℕ
  pub lflag : ℕ
  pub altflag : Bool
  pub next : ℕ

abbrev pub fresh : ℕ → Spec
fresh next = record {
  padc = 32;
  width = minus_one;
  precision = minus_one;
  lflag = 0;
  altflag = false;
  next = next;
}

-- `process_precision`
unfoldable pub process_precision : Spec → Spec
process_precision f =
    if negative f.width then record f { width = f.precision; precision = minus_one } else f

-- the digits that have been read, if any, have ended
unfoldable pub end_digits : Option ℕ → Spec → Spec
unfolding process_precision
end_digits none f = f
end_digits (some n) f = process_precision (record f { precision = n })

abbrev pub is_digit : ℕ → Bool
is_digit c = leb 48 c && leb c 57

-- What one character of an escape does to the digits before it and the spec; `none` for a conversion.
module _ (arg : ℕ → ℕ) where
  unfoldable pub flag_char : Spec → ℕ → Option (Option ℕ × Spec)
  unfolding process_precision
  flag_char f c =
      if c == b'-'
      then some (none, record f { padc = b'-' })
      else if c == b'0'
      then some (none, record f { padc = b'0' })
      else if is_digit c
      then some (some (c - b'0'), f)
      else if c == b'*'
      then some (none, process_precision (record f { precision = arg f.next; next = f.next + 1 }))
      else if c == b'.'
      then some (none, record f { width = if negative f.width then 0 else f.width })
      else if c == b'#'
      then some (none, record f { altflag = true })
      else if c == b'l'
      then some (none, record f { lflag = f.lflag + 1 })
      else none

  unfoldable pub flag : Option ℕ → Spec → ℕ → Option (Option ℕ × Spec)
  unfolding flag_char end_digits
  flag none f c = flag_char f c
  flag (some n) f c =
      if is_digit c
      then some (some (u32 (n * 10 + c - b'0')), f)
      else flag_char (end_digits (some n) f) c

  -- `reswitch` up to the conversion: its character, the spec, and the format behind it. At the end
  -- of the format the character is the final 0.
  unfoldable pub flags : Option ℕ → Spec → List ℕ → ℕ × (Spec × List ℕ)
  unfolding flag
  flags n f [] = (0, (end_digits n f, []))
  flags n f (c ∷ rest) = elim (flag n f c) [
    | none ↦ (c, (end_digits n f, rest))
    | some (n', f') ↦ flags n' f' rest
  ]

  -- `getuint` and `getint`: 64-bit words
  unfoldable pub getuint : Spec → ℕ
  getuint f = if leb 2 f.lflag then arg f.next + arg (f.next + 1) * 2 ^ 32 else arg f.next

  unfoldable pub getint : Spec → ℕ
  getint f =
      if leb 2 f.lflag
      then arg f.next + arg (f.next + 1) * 2 ^ 32
      else if negative (arg f.next)
      then arg f.next + (2 ^ 64 - 2 ^ 32)
      else arg f.next

  abbrev pub long_next : Spec → ℕ
  long_next f = if leb 2 f.lflag then f.next + 2 else f.next + 1
