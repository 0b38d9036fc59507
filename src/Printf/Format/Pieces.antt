-- ===== src/Printf/Format/Pieces.antt =====
-- What `vprintfmt` prints: a format and its arguments are taken apart into pieces, each with the
-- text that it stands for.
pub mod Steps
pub mod Errors
pub mod Printed
use jos.Base.{
  ℕ, zero, suc, ◌+◌, ◌-◌, ◌^◌, ◌≤◌, ◌<◌, ◌≡◌, ◌≢◌, ◌⊎◌, refl, sym, ◌∙◌, ap, Bool, true, false, not,
  ◌&&◌, Option, some, none, List, [], ◌∷◌, ◌++◌, ◌==◌, arith, if◌then◌else◌, take, length,
  length-append, Bool-cases, inl, inr, leb,
}
use mathlib.Core.List.{append_assoc}
use jos.Types.{u32}
use jos.Memory.{Mem}
use jos.Memory.Text.{IsText}
use jos.Printf.{printnum}
use jos.Printf.Number.{Numeral, printnum-Numeral}
use jos.Printf.Flags.{fresh, negative, flags, getint, getuint}
use jos.Printf.Format.{
  codes, emit, convert, format, vprintfmt, number, decimal, string, maxerror, error_string,
}
use jos.Printf.Format.Emits.{emit-append}
use jos.Printf.Format.Strings.{IsAscii, cut, string-cut}

-- "%08x", "%d", "%o", "%u", "%x", "%p", "%c" and "%e", with their argument; "%s" and "%.*s", with the
-- string at the address; "%s" of a null pointer; and "%%".
pub data Piece : Type 0 where
  literal : List ℕ → Piece
  hex dec oct uns low_hex ptr char err : ℕ → Piece
  str : ℕ → List ℕ → Piece
  cut_str : ℕ → ℕ → List ℕ → Piece
  null_str percent : Piece

abbrev text_or_none : Option (List ℕ) → List ℕ
text_or_none none = []
text_or_none (some text) = text

-- The digits of a number, behind the padding that a width asks for.
unfoldable pub numeral : ℕ → ℕ → ℕ → ℕ → List ℕ
numeral base width padc x = text_or_none (printnum 64 x base width padc)

pub printnum-numeral :
    (base width padc x : ℕ)
    → 2 ≤ base
    → base ≤ 16
    → x < 2 ^ 64
    → printnum 64 x base width padc ≡ some (numeral base width padc x)
unfolding numeral
printnum-numeral base width padc x two top small =
    let q = printnum-Numeral 64 x base width padc two top small (omega arith) in rw (q.returns) refl

-- The error number of a word, which may be negative, and the text for it.
abbrev pub error_of : ℕ → ℕ
error_of x = if negative x then 2 ^ 32 - x else x

abbrev pub text_or_number : ℕ → Option (List ℕ) → List ℕ
text_or_number e none = codes "error " ++ numeral 10 0 b' ' e
text_or_number e (some cs) = cs

abbrev pub error_text : ℕ → List ℕ
error_text e = text_or_number e (if leb maxerror e then none else error_string e)

-- The piece in the format, its arguments, and what is printed of it.
abbrev pub piece_format : Piece → List ℕ
piece_format (literal cs) = cs
piece_format (hex x) = codes "%08x"
piece_format (dec x) = codes "%d"
piece_format (oct x) = codes "%o"
piece_format (uns x) = codes "%u"
piece_format (low_hex x) = codes "%x"
piece_format (ptr x) = codes "%p"
piece_format (char x) = codes "%c"
piece_format (err x) = codes "%e"
piece_format (str a cs) = codes "%s"
piece_format (cut_str n a cs) = codes "%.*s"
piece_format null_str = codes "%s"
piece_format percent = codes "%%"

abbrev pub piece_args : Piece → List ℕ
piece_args (literal cs) = []
piece_args (hex x) = x ∷ []
piece_args (dec x) = x ∷ []
piece_args (oct x) = x ∷ []
piece_args (uns x) = x ∷ []
piece_args (low_hex x) = x ∷ []
piece_args (ptr x) = x ∷ []
piece_args (char x) = x ∷ []
piece_args (err x) = x ∷ []
piece_args (str a cs) = a ∷ []
piece_args (cut_str n a cs) = n ∷ a ∷ []
piece_args null_str = 0 ∷ []
piece_args percent = []

abbrev pub piece_text : Piece → List ℕ
piece_text (literal cs) = cs
piece_text (hex x) = numeral 16 8 b'0' x
piece_text (dec x) =
    if negative x then b'-' ∷ numeral 10 0 b' ' (2 ^ 32 - x) else numeral 10 0 b' ' x
piece_text (oct x) = numeral 8 0 b' ' x
piece_text (uns x) = numeral 10 0 b' ' x
piece_text (low_hex x) = numeral 16 0 b' ' x
piece_text (ptr x) = b'0' ∷ b'x' ∷ numeral 16 0 b' ' x
piece_text (char x) = x ∷ []
piece_text (err x) = error_text (error_of x)
piece_text (str a cs) = cs
piece_text (cut_str n a cs) = cut n cs
piece_text null_str = codes "(null)"
piece_text percent = codes "%"

abbrev pub formats : List Piece → List ℕ
formats [] = []
formats (p ∷ ps) = piece_format p ++ formats ps

abbrev pub arguments : List Piece → List ℕ
arguments [] = []
arguments (p ∷ ps) = piece_args p ++ arguments ps

abbrev pub texts : List Piece → List ℕ
texts [] = []
texts (p ∷ ps) = piece_text p ++ texts ps

-- Characters other than "%".
abbrev pub IsPlain : List ℕ → Type 0
IsPlain [] = 0 < 1
IsPlain (c ∷ cs) = (c ≢ b'%') × IsPlain cs

abbrev pub IsPlaced : Mem → ℕ → ℕ → List ℕ → Type 0
IsPlaced m fuel a cs =
    (a ≢ 0) × (a < 2 ^ 32) × IsText m a cs × IsAscii cs × (length cs < fuel) × (length cs < 2 ^ 31)

-- The arguments are words, of which the smallest `int` is no error number, and the strings stand in
-- memory.
abbrev pub IsPiece : Mem → ℕ → Piece → Type 0
IsPiece m fuel (literal cs) = IsPlain cs
IsPiece m fuel (hex x) = x < 2 ^ 32
IsPiece m fuel (dec x) = x < 2 ^ 32
IsPiece m fuel (oct x) = x < 2 ^ 32
IsPiece m fuel (uns x) = x < 2 ^ 32
IsPiece m fuel (low_hex x) = x < 2 ^ 32
IsPiece m fuel (ptr x) = x < 2 ^ 32
IsPiece m fuel (char x) = x < 2 ^ 32
IsPiece m fuel (err x) = (x < 2 ^ 32) × (x ≢ 2 ^ 31) × (20 ≤ fuel)
IsPiece m fuel (str a cs) = IsPlaced m fuel a cs
IsPiece m fuel (cut_str n a cs) = (n < 2 ^ 32) × IsPlaced m fuel a cs
IsPiece m fuel null_str = 6 < fuel
IsPiece m fuel percent = 0 < 1

abbrev pub ArePieces : Mem → ℕ → List Piece → Type 0
ArePieces m fuel [] = 0 < 1
ArePieces m fuel (p ∷ ps) = IsPiece m fuel p × ArePieces m fuel ps

-- The arguments from the `next`-th on.
abbrev pub HasArgs : (ℕ → ℕ) → ℕ → List ℕ → Type 0
HasArgs arg next [] = 0 < 1
HasArgs arg next (x ∷ xs) = (arg next ≡ x) × HasArgs arg (next + 1) xs
