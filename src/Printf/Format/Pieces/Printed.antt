-- ===== src/Printf/Format/Pieces/Printed.antt =====
-- What `vprintfmt` prints for the pieces of a format.
use jos.Base.{
  ℕ, zero, suc, ◌+◌, ◌^◌, ◌<◌, ◌≡◌, refl, sym, ◌∙◌, ap, some, List, [], ◌∷◌, ◌++◌, arith, length,
  get_or,
}
use mathlib.Core.Path.{subst}
use jos.Types.{u32}
use jos.Memory.{Mem}
use jos.Printf.Format.{emit, format, vprintfmt}
use jos.Printf.Format.Emits.{emit-append, emit-Ok}
use jos.Printf.Format.Pieces.{
  Piece, literal, hex, dec, oct, uns, low_hex, ptr, char, err, str, cut_str, null_str, percent,
  piece_format, piece_args, piece_text, formats, arguments, texts, IsPiece, ArePieces, HasArgs,
}
use jos.Printf.Cprintf.{putch, vcprintf, cprintf, emit-putch}
use jos.Printf.Format.Pieces.Steps.{
  run, Prints, literal-Prints, hex_step, oct_step, dec_step, str_step, cut_step, uns_step,
  low_hex_step, ptr_step, char_conversion, percent_step,
}
use jos.Printf.Format.Pieces.Errors.{err_step, null_step}

HasArgs-append :
    (arg : ℕ → ℕ) (next : ℕ) (xs ys : List ℕ)
    → HasArgs arg next (xs ++ ys)
    → HasArgs arg next xs × HasArgs arg (next + length xs) ys
HasArgs-append arg next [] ys h = let e : next + 0 ≡ next = omega arith in (omega arith, rw e h)
HasArgs-append arg next (x ∷ xs) ys h =
    let e : next + suc (length xs) ≡ next + 1 + length xs = omega arith in
    let rest = HasArgs-append arg (next + 1) xs ys h.1 in ((h.0, rest.0), rw e (rest.1))

pub mem-emit :
    {S : Type 0} (putch : ℕ → S → S) (mem : S → Mem)
    → ((c : ℕ) (s : S) → mem (putch c s) ≡ mem s)
    → (cs : List ℕ) (s : S) → mem (emit putch cs s) ≡ mem s
mem-emit putch mem quiet cs s =
    emit-Ok putch (λ t. mem t ≡ mem s) (λ c t h. quiet c t ∙ h) cs s refl

module _ {S : Type 0} (putch : ℕ → S → S) (mem : S → Mem) (fuel : ℕ) (Ok : S → Type 0)
    (keep : (c : ℕ) (s : S) → Ok s → Ok (putch c s)) where
  module _ (arg : ℕ → ℕ) where
    piece-Prints :
        (p : Piece) (rounds : ℕ) (rest : List ℕ) (next : ℕ) (s : S)
        → Ok s
        → ((t : S) → Ok t → IsPiece (mem t) fuel p)
        → HasArgs arg next (piece_args p)
        → length (piece_format p ++ rest) < rounds
        → Prints putch mem fuel Ok keep arg rounds
            (piece_format p)
            rest
            next
            (next + length (piece_args p))
            (piece_text p)
            s
    piece-Prints p zero rest next s now ok args f = absurd (omega arith)
    piece-Prints (literal cs) (suc rounds) rest next s now ok args f =
        let e : next + 0 ≡ next = omega arith in
        rw e (literal-Prints putch mem fuel Ok keep arg cs (suc rounds) rest next s (ok s now) f)
    piece-Prints (hex x) (suc rounds) rest next s now ok args f = record {
      left = rounds;
      enough = omega (arith);
      returns = hex_step putch mem fuel Ok keep arg rounds x rest next s args.0 (ok s now);
    }
    piece-Prints (dec x) (suc rounds) rest next s now ok args f = record {
      left = rounds;
      enough = omega (arith);
      returns = dec_step putch mem fuel Ok keep arg rounds x rest next s args.0 (ok s now);
    }
    piece-Prints (oct x) (suc rounds) rest next s now ok args f = record {
      left = rounds;
      enough = omega (arith);
      returns = oct_step putch mem fuel Ok keep arg rounds x rest next s args.0 (ok s now);
    }
    piece-Prints (str a cs) (suc rounds) rest next s now ok args f = record {
      left = rounds;
      enough = omega (arith);
      returns = str_step putch mem fuel Ok keep arg rounds a cs rest next s args.0 now ok;
    }
    piece-Prints (cut_str n a cs) (suc rounds) rest next s now ok args f = record {
      left = rounds;
      enough = omega (arith);
      returns =
          cut_step putch mem fuel Ok keep arg rounds n a cs rest next s args.0 args.1.0 now
            (λ t h. (ok t h).1);
    }
    piece-Prints (uns x) (suc rounds) rest next s now ok args f = record {
      left = rounds;
      enough = omega (arith);
      returns = uns_step putch mem fuel Ok keep arg rounds x rest next s args.0 (ok s now);
    }
    piece-Prints (low_hex x) (suc rounds) rest next s now ok args f = record {
      left = rounds;
      enough = omega (arith);
      returns = low_hex_step putch mem fuel Ok keep arg rounds x rest next s args.0 (ok s now);
    }
    piece-Prints (ptr x) (suc rounds) rest next s now ok args f = record {
      left = rounds;
      enough = omega (arith);
      returns = ptr_step putch mem fuel Ok keep arg rounds x rest next s args.0 (ok s now);
    }
    piece-Prints (char x) (suc rounds) rest next s now ok args f = record {
      left = rounds;
      enough = omega (arith);
      returns =
          unfold emit in char_conversion putch mem fuel Ok keep arg rounds x rest next s args.0;
    }
    piece-Prints (err x) (suc rounds) rest next s now ok args f = record {
      left = rounds;
      enough = omega (arith);
      returns =
          err_step putch mem fuel Ok keep arg rounds x rest next s args.0 (ok s now).0 (ok s now).1
            (ok s now).2;
    }
    piece-Prints null_str (suc rounds) rest next s now ok args f = record {
      left = rounds;
      enough = omega (arith);
      returns = null_step putch mem fuel Ok keep arg rounds rest next s args.0 (ok s now);
    }
    piece-Prints percent (suc rounds) rest next s now ok args f =
        let e : next + 0 ≡ next = omega arith in
        rw e (record {
          left = rounds;
          enough = omega (arith);
          returns = unfold emit in percent_step putch mem fuel Ok keep arg rounds rest next s;
        })

    pieces_run :
        (ps : List Piece) (rounds next : ℕ) (s : S)
        → Ok s
        → ((t : S) → Ok t → ArePieces (mem t) fuel ps)
        → HasArgs arg next (arguments ps)
        → length (formats ps) < rounds
        → run putch mem fuel Ok keep arg rounds (formats ps) next s ≡ some (emit putch (texts ps) s)
    unfolding format emit
    pieces_run [] zero next s now ok args f = absurd (omega arith)
    pieces_run [] (suc rounds) next s now ok args f = refl
    pieces_run (p ∷ ps) rounds next s now ok args f =
        let (first, later) = HasArgs-append arg next (piece_args p) (arguments ps) args in
        let q = piece-Prints p rounds (formats ps) next s now (λ t h. (ok t h).0) first f in
        let rest =
          pieces_run ps (q.left) (next + length (piece_args p)) (emit putch (piece_text p) s)
            (emit-Ok putch Ok keep (piece_text p) s now) (λ t h. (ok t h).1) later (q.enough) in
        q.returns ∙ rest ∙ rw (emit-append putch (piece_text p) (texts ps) s) refl

abbrev AreWords : List ℕ → Type 0
AreWords [] = 0 < 1
AreWords (x ∷ xs) = (x < 2 ^ 32) × AreWords xs

AreWords-append : (xs ys : List ℕ) → AreWords xs → AreWords ys → AreWords (xs ++ ys)
AreWords-append [] ys w v = v
AreWords-append (x ∷ xs) ys w v = (w.0, AreWords-append xs ys w.1 v)

piece_args-AreWords : (m : Mem) (fuel : ℕ) (p : Piece) → IsPiece m fuel p → AreWords (piece_args p)
piece_args-AreWords m fuel (literal cs) ok = omega arith
piece_args-AreWords m fuel (hex x) ok = (ok, omega arith)
piece_args-AreWords m fuel (dec x) ok = (ok, omega arith)
piece_args-AreWords m fuel (oct x) ok = (ok, omega arith)
piece_args-AreWords m fuel (uns x) ok = (ok, omega arith)
piece_args-AreWords m fuel (low_hex x) ok = (ok, omega arith)
piece_args-AreWords m fuel (ptr x) ok = (ok, omega arith)
piece_args-AreWords m fuel (char x) ok = (ok, omega arith)
piece_args-AreWords m fuel (err x) ok = (ok.0, omega arith)
piece_args-AreWords m fuel (str a cs) ok = (ok.1, omega arith)
piece_args-AreWords m fuel (cut_str n a cs) ok = (ok.0, (ok.1.1, omega arith))
piece_args-AreWords m fuel null_str ok = omega arith
piece_args-AreWords m fuel percent ok = omega arith

arguments-AreWords :
    (m : Mem) (fuel : ℕ) (ps : List Piece) → ArePieces m fuel ps → AreWords (arguments ps)
arguments-AreWords m fuel [] ok = omega arith
arguments-AreWords m fuel (p ∷ ps) ok =
    AreWords-append (piece_args p) (arguments ps) (piece_args-AreWords m fuel p ok.0)
      (arguments-AreWords m fuel ps ok.1)

HasArgs-words :
    (arg : ℕ → ℕ) (next : ℕ) (xs : List ℕ)
    → AreWords xs
    → ((i : ℕ) → arg (next + i) ≡ u32 (get_or xs i 0))
    → HasArgs arg next xs
HasArgs-words arg next [] w h = omega arith
HasArgs-words arg next (x ∷ xs) w h =
    let here : next + 0 ≡ next = omega arith in
    let word : u32 x ≡ x = omega (arith, w.0) in
    let first = h 0 in
    (
      ap arg (sym here) ∙ first ∙ word,
      HasArgs-words arg (next + 1) xs w.1
          (λ i. let e : next + 1 + i ≡ next + suc i = omega arith in ap arg e ∙ h (suc i)),
    )

-- A format made of pieces prints their texts, where the argument list starts with their arguments and
-- printing keeps `Ok`, with which the strings of the pieces stand in memory.
pub vprintfmt-texts_args :
    {S : Type 0} (putch : ℕ → S → S) (mem : S → Mem) (fuel : ℕ) (Ok : S → Type 0)
    → ((c : ℕ) (s : S) → Ok s → Ok (putch c s))
    → (ps : List Piece) (args : ℕ → ℕ) (s : S) → Ok s
    → ((t : S) → Ok t → ArePieces (mem t) fuel ps)
    → HasArgs (λ i. u32 (args i)) 0 (arguments ps)
    → vprintfmt putch mem fuel (formats ps) args s ≡ some (emit putch (texts ps) s)
unfolding vprintfmt
vprintfmt-texts_args putch mem fuel Ok keep ps args s now ok has =
    pieces_run putch mem fuel Ok keep (λ i. u32 (args i)) ps (length (formats ps) + 1) 0 s now ok
      has (omega arith)

pub vprintfmt-texts_on :
    {S : Type 0} (putch : ℕ → S → S) (mem : S → Mem) (fuel : ℕ) (Ok : S → Type 0)
    → ((c : ℕ) (s : S) → Ok s → Ok (putch c s))
    → (ps : List Piece) (s : S) → Ok s
    → ((t : S) → Ok t → ArePieces (mem t) fuel ps)
    → vprintfmt putch mem fuel (formats ps) (λ i. get_or (arguments ps) i 0) s
      ≡ some (emit putch (texts ps) s)
vprintfmt-texts_on putch mem fuel Ok keep ps s now ok =
    vprintfmt-texts_args putch mem fuel Ok keep ps (λ i. get_or (arguments ps) i 0) s now ok
      (HasArgs-words (λ i. u32 (get_or (arguments ps) i 0)) 0 (arguments ps)
        (arguments-AreWords (mem s) fuel ps (ok s now))
        (λ i. let e : 0 + i ≡ i = omega arith in rw e refl))

-- A format that is made of pieces, with the arguments of the pieces, prints the texts of the pieces
-- in order, where the arguments are words, of which the smallest `int` is no error number, the strings
-- stand in memory in plain ASCII, they and the texts of the program end before the fuel does, and
-- printing leaves the memory as it is.
pub vprintfmt-texts :
    {S : Type 0} (putch : ℕ → S → S) (mem : S → Mem) (fuel : ℕ)
    → ((c : ℕ) (s : S) → mem (putch c s) ≡ mem s)
    → (ps : List Piece) (s : S) → ArePieces (mem s) fuel ps
    → vprintfmt putch mem fuel (formats ps) (λ i. get_or (arguments ps) i 0) s
      ≡ some (emit putch (texts ps) s)
vprintfmt-texts putch mem fuel quiet ps s ok =
    vprintfmt-texts_on putch mem fuel (λ t. mem t ≡ mem s) (λ c t h. quiet c t ∙ h) ps s refl
      (λ t h. subst (λ m. ArePieces m fuel ps) (sym h) ok)

pub vcprintf-texts :
    {S : Type 0} (cputchar : ℕ → S → S) (mem : S → Mem) (fuel : ℕ)
    → ((c : ℕ) (s : S) → mem (cputchar c s) ≡ mem s)
    → (ps : List Piece) (s : S) → ArePieces (mem s) fuel ps
    → vcprintf cputchar mem fuel (formats ps) (λ i. get_or (arguments ps) i 0) s
      ≡ some (emit cputchar (texts ps) s, 0)
unfolding vcprintf putch
vcprintf-texts cputchar mem fuel quiet ps s ok =
    vprintfmt-texts (putch cputchar) (λ t. mem t.0) fuel (λ c t. quiet c (t.0)) ps (s, 0) ok
    ∙ ap some (emit-putch cputchar (texts ps) s 0)

pub cprintf-texts :
    {S : Type 0} (cputchar : ℕ → S → S) (mem : S → Mem) (fuel : ℕ)
    → ((c : ℕ) (s : S) → mem (cputchar c s) ≡ mem s)
    → (ps : List Piece) (s : S) → ArePieces (mem s) fuel ps
    → cprintf cputchar mem fuel (formats ps) (arguments ps) s ≡ some (emit cputchar (texts ps) s)
unfolding cprintf
cprintf-texts cputchar mem fuel quiet ps s ok =
    rw (vcprintf-texts cputchar mem fuel quiet ps s ok) refl
