-- ===== src/Printf/Format.antt =====
-- `vprintfmt` of lib/printfmt.c. `S` is what `putch` works on, and `mem` the memory that it holds.
-- `ap` gives the 32-bit words of the argument list; a `long long` takes two. An `int` is a 32-bit
-- word, negative from 2 ^ 31 on. The format is the list of its characters, without the final 0.
pub mod Emits
pub mod Texts
pub mod Total
pub mod Strings
pub mod Pieces
use jos.Base.{
  ℕ, zero, suc, ◌+◌, ◌-◌, ◌*◌, ◌^◌, Bool, true, false, not, ◌&&◌, ◌||◌, Option, none, some, List,
  [], ◌∷◌, ◌==◌, ltb, leb, if◌then◌else◌, get_or, length, replicate,
}
use Prim.Native.Char.{code}
use Prim.Native.String
use Prim.Native.String.{String}
use jos.Types.{u32, add32, sub32}
use jos.Memory.{Mem}
use jos.Str.{strnlen}
use jos.Printf.{printnum}
use jos.Printf.Flags.{
  negative, positive, minus_one, char_int, Spec, fresh, process_precision, end_digits, is_digit,
  flag_char, flag, flags, getuint, getint, long_next,
}

-- The code points of a literal.
abbrev pub codes : String → List ℕ
codes String.[] = []
codes (String.◌∷◌ c s) = code c ∷ codes s

-- `none` for NULL
unfoldable pub error_string : ℕ → Option (List ℕ)
error_string err =
    if err == 1
    then some (codes "unspecified error")
    else if err == 2
    then some (codes "bad environment")
    else if err == 3
    then some (codes "invalid parameter")
    else if err == 4
    then some (codes "out of memory")
    else if err == 5
    then some (codes "out of environments")
    else if err == 6
    then some (codes "segmentation fault")
    else none

abbrev pub maxerror : ℕ
maxerror = 8

abbrev pub printed_width : ℕ → ℕ
printed_width w = if negative w then 0 else w

module _ {S : Type 0} (putch : ℕ → S → S) where
  -- the calls of `putch` for some characters, in order
  unfoldable pub emit : List ℕ → S → S
  emit [] s = s
  emit (c ∷ cs) s = emit cs (putch c s)

  abbrev pub pad : ℕ → ℕ → S → S
  pad n c s = emit (replicate n c) s

  abbrev pub emit_all : Option (List ℕ) → S → Option S
  emit_all none s = none
  emit_all (some cs) s = some (emit cs s)

  unfoldable pub number : ℕ → ℕ → Spec → S → Option S
  number num base f s = emit_all (printnum 64 num base (printed_width f.width) f.padc) s

  unfoldable pub decimal : ℕ → Spec → S → Option S
  unfolding number
  decimal num f s =
      if leb (2 ^ 63) num then number (2 ^ 64 - num) 10 f (putch b'-' s) else number num 10 f s

  abbrev pub pad_behind : Option (ℕ × S) → Option S
  pad_behind none = none
  pad_behind (some (width, s)) = some (pad (if positive width then width else 0) b' ' s)

  module _ (read : S → ℕ → ℕ) where
    -- the second loop of `%s`, from the `i`-th character on: the width that is left, and the state
    unfoldable pub text_loop : ℕ → ℕ → ℕ → ℕ → Bool → S → Option (ℕ × S)
    text_loop zero i width precision altflag s = none
    text_loop (suc fuel) i width precision altflag s =
        let ch = char_int (read s i) in
        let shown = if altflag && (ltb ch b' ' || ltb b'~' ch) then b'?' else ch in
        let left = if negative precision then precision else precision - 1 in
        let rest = text_loop fuel (i + 1) (sub32 width 1) left altflag (putch shown s) in
        if ch == 0 || precision == 0 then some (width, s) else rest

module _ {S : Type 0} where
  abbrev pub after_text : Spec → Option S → Option (ℕ × S)
  after_text f none = none
  after_text f (some s) = some (f.next + 1, s)

  abbrev pub after_number : ℕ → Option S → Option (ℕ × S)
  after_number next none = none
  after_number next (some s) = some (next, s)

module _ {S : Type 0} (putch : ℕ → S → S) (mem : S → Mem) (text_fuel : ℕ) where
  -- `%s`: padding in front, the text, padding behind
  unfoldable pub text : (S → ℕ → ℕ) → Spec → S → Option S
  unfolding text_loop
  text read f s =
      let len = strnlen (read s) 0 f.precision in
      let front =
        text_loop putch read text_fuel 0 (if ltb len f.width then 0 else sub32 f.width len)
          f.precision f.altflag (pad putch (f.width - len) f.padc s) in
      let no_front = text_loop putch read text_fuel 0 f.width f.precision f.altflag s in
      pad_behind putch (if positive f.width && not (f.padc == b'-') then front else no_front)

  -- The two calls of `printfmt` for `%e`: "error " and a number, or a text.
  unfoldable pub print_error : ℕ → Option (List ℕ) → S → Option S
  unfolding text decimal
  print_error err none s = decimal putch err (fresh 0) (emit putch (codes "error ") s)
  print_error err (some cs) s = text (λ _ i. get_or cs i 0) (fresh 0) s

  -- `case 'e'`. The smallest `int` is its own negative: its test against MAXERROR fails, and the read
  -- in front of `error_string` is undefined, which is a null pointer here.
  unfoldable pub error : ℕ → S → Option S
  unfolding print_error error_string
  error word s =
      let err = if negative word then sub32 0 word else word in
      print_error err (if not (negative err) && leb maxerror err then none else error_string err) s

  module _ (arg : ℕ → ℕ) where
    -- `case 's'`
    unfoldable pub string : Spec → S → Option S
    unfolding text
    string f s =
        if arg f.next == 0
        then text (λ _ i. get_or (codes "(null)") i 0) f s
        else text (λ t i. mem t (arg f.next + i)) f s

    -- The conversion `ch`: the index of the next argument, and the state. Not for `default`.
    unfoldable pub convert : ℕ → Spec → S → Option (ℕ × S)
    unfolding string error decimal number getint getuint
    convert ch f s =
        if ch == b'c'
        then some (f.next + 1, putch (arg f.next) s)
        else if ch == b'e'
        then after_text f (error (arg f.next) s)
        else if ch == b's'
        then after_text f (string f s)
        else if ch == b'd'
        then after_number (long_next arg f) (decimal putch (getint arg f) f s)
        else if ch == b'u'
        then after_number (long_next arg f) (number putch (getuint arg f) 10 f s)
        else if ch == b'o'
        then after_number (long_next arg f) (number putch (getuint arg f) 8 f s)
        else if ch == b'p'
        then after_number (f.next + 1) (number putch (arg f.next) 16 f (putch b'x' (putch b'0' s)))
        else if ch == b'x'
        then after_number (long_next arg f) (number putch (getuint arg f) 16 f s)
        else some (f.next, putch b'%' s)

    -- whether `default` is not taken
    abbrev pub is_conversion : ℕ → Bool
    is_conversion ch =
        ch == b'c'
        || ch == b'e'
        || ch == b's'
        || ch == b'd'
        || ch == b'u'
        || ch == b'o'
        || ch == b'p'
        || ch == b'x'
        || ch == b'%'

    -- The main loop; `default` prints the `%` and goes back to what stands behind it.
    unfoldable pub format : ℕ → List ℕ → ℕ → S → Option S
    unfolding convert
    format zero fmt next s = none
    format (suc rounds) [] next s = some s
    format (suc rounds) (c ∷ rest) next s = elim (c == b'%') [
      | false ↦ format rounds rest next (putch c s)
      | true ↦
          let (ch, (f, behind)) = flags arg none (fresh next) rest in
          elim (convert ch f s) [
            | none ↦ none
            | some (next', s') ↦ format rounds (if is_conversion ch then behind else rest) next' s'
          ]
    ]

  -- `vprintfmt(putch, putdat, fmt, ap)`; every round takes a character of the format
  unfoldable pub vprintfmt : List ℕ → (ℕ → ℕ) → S → Option S
  unfolding format
  vprintfmt fmt ap s = format (λ i. u32 (ap i)) (length fmt + 1) fmt 0 s

  -- `printfmt(putch, putdat, fmt, ...)` with the arguments as words
  unfoldable pub printfmt : List ℕ → List ℕ → S → Option S
  printfmt fmt args s = vprintfmt fmt (λ i. get_or args i 0) s
