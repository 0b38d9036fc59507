-- ===== src/Printf/Format/Pieces/Errors.antt =====
-- What `vprintfmt` does for "%e", and for "%s" of a null pointer.
use jos.Base.{
  ℕ, suc, ◌+◌, ◌^◌, ◌≤◌, ◌<◌, ◌≡◌, ◌≢◌, refl, ap, ◌∙◌, Bool, true, false, Option, none, some, List,
  ◌++◌, ◌==◌, arith, if◌then◌else◌, length, inr, leb,
}
use jos.Types.{sub32}
use jos.Memory.{Mem}
use jos.Memory.Text.{IsText}
use jos.Printf.Flags.{fresh, negative, flags}
use jos.Printf.Format.{
  codes, emit, convert, format, number, decimal, string, after_text, print_error, error,
  error_string, maxerror,
}
use jos.Printf.Format.Strings.{IsAscii, list_memory, text-cut_list}
use jos.Printf.Format.Emits.{emit-append}
use jos.Printf.Format.Pieces.{numeral, printnum-numeral, error_of, text_or_number, error_text}
use jos.Printf.Format.Pieces.Steps.{run}

-- A literal that `%s` prints whole.
abbrev IsLiteral : Option (List ℕ) → Type 0
IsLiteral none = 0 < 1
IsLiteral (some cs) = IsText (list_memory cs) 0 cs × IsAscii cs × (length cs < 20)

either :
    (b : Bool) (x y : Option (List ℕ)) → IsLiteral x → IsLiteral y → IsLiteral (if b then x else y)
either true x y k l = k
either false x y k l = l

error_string-IsLiteral : (err : ℕ) → IsLiteral (error_string err)
unfolding error_string
error_string-IsLiteral err = either (err == 1) _ _ (omega arith) (
    either (err == 2) _ _ (omega arith) (
      either (err == 3) _ _ (omega arith) (
        either (err == 4) _ _ (omega arith) (
          either (err == 5) _ _ (omega arith)
            (either (err == 6) _ _ (omega arith) (omega arith))))))

module _ {S : Type 0} (putch : ℕ → S → S) (mem : S → Mem) (fuel : ℕ) (Ok : S → Type 0)
    (keep : (c : ℕ) (s : S) → Ok s → Ok (putch c s)) (arg : ℕ → ℕ) where
  print_error-emit :
      (e : ℕ) (o : Option (List ℕ)) (s : S)
      → e < 2 ^ 31
      → 20 ≤ fuel
      → IsLiteral o
      → print_error putch mem fuel e o s ≡ some (emit putch (text_or_number e o) s)
  unfolding print_error decimal number
  print_error-emit e none s small room lit =
      let short : leb (2 ^ 63) e ≡ false = ground arith in
      rw
        (
          short,
          printnum-numeral 10 0 b' ' e (omega arith) (omega arith) (omega arith),
          emit-append putch (codes "error ") (numeral 10 0 b' ' e) s,
        )
        refl
  print_error-emit e (some cs) s small room lit =
      text-cut_list putch mem fuel (fresh 0) cs s (inr refl) refl lit.0 lit.1 (omega arith)
        (omega arith)

  error-emit :
      (x : ℕ) (s : S)
      → x < 2 ^ 32
      → x ≢ 2 ^ 31
      → 20 ≤ fuel
      → error putch mem fuel x s ≡ some (emit putch (error_text (error_of x)) s)
  unfolding error
  error-emit x s small int room =
      let same : (if negative x then sub32 0 x else x) ≡ error_of x = ground arith in
      let bound : error_of x < 2 ^ 31 = ground arith in
      let signed : negative (error_of x) ≡ false = ground arith in
      rw (same, signed)
        (print_error-emit (error_of x) _ s bound room (
          either (leb maxerror (error_of x)) none (error_string (error_of x)) (omega arith)
            (error_string-IsLiteral (error_of x))))

  -- The rounds behind a conversion.
  abbrev goes_on : ℕ → List ℕ → Option (ℕ × S) → Option S
  goes_on rounds rest none = none
  goes_on rounds rest (some (next, s)) = format putch mem fuel arg rounds rest next s

  err_conversion :
      (rounds : ℕ) (rest : List ℕ) (next : ℕ) (s : S)
      → format putch mem fuel arg (suc rounds) (codes "%e" ++ rest) next s
        ≡ goes_on rounds rest (after_text (fresh next) (error putch mem fuel (arg next) s))
  unfolding format flags convert
  err_conversion rounds rest next s = refl

  pub err_step :
      (rounds x : ℕ) (rest : List ℕ) (next : ℕ) (s : S)
      → arg next ≡ x
      → x < 2 ^ 32
      → x ≢ 2 ^ 31
      → 20 ≤ fuel
      → run putch mem fuel Ok keep arg (suc rounds) (codes "%e" ++ rest) next s
        ≡ run putch mem fuel Ok keep arg rounds rest
            (next + 1)
            (emit putch (error_text (error_of x)) s)
  err_step rounds x rest next s e small int room =
      err_conversion rounds rest next s
      ∙ ap (λ r. goes_on rounds rest (after_text (fresh next) r))
          (ap (λ (word : ℕ). error putch mem fuel word s) e ∙ error-emit x s small int room)

  pub null_step :
      (rounds : ℕ) (rest : List ℕ) (next : ℕ) (s : S)
      → arg next ≡ 0
      → 6 < fuel
      → run putch mem fuel Ok keep arg (suc rounds) (codes "%s" ++ rest) next s
        ≡ run putch mem fuel Ok keep arg rounds rest (next + 1) (emit putch (codes "(null)") s)
  unfolding format flags convert string
  null_step rounds rest next s e room =
      let printed =
        text-cut_list putch mem fuel (fresh next) (codes "(null)") s (inr refl) refl (omega arith)
          (omega arith) (omega arith) (omega arith) in
      rw (format, string, e, printed) refl
