-- ===== src/Printf/Format/Pieces/Steps.antt =====
-- What `vprintfmt` does for one piece.
use jos.Base.{
  ℕ, zero, suc, ◌+◌, ◌-◌, ◌^◌, ◌<◌, ◌≡◌, ◌≢◌, refl, ◌∙◌, true, false, Option, some, List, [], ◌∷◌,
  ◌++◌, ◌==◌, arith, if◌then◌else◌, length, Bool-cases, inl, inr, leb,
}
use jos.Memory.{Mem}
use jos.Printf.Flags.{fresh, negative, flags, getint}
use jos.Printf.Format.{codes, emit, convert, format, number, decimal}
use jos.Printf.Format.Strings.{cut, string-cut}
use jos.Printf.Format.Pieces.{dec, ptr, numeral, printnum-numeral, piece_text, IsPlain, IsPlaced}

module _ {S : Type 0} (putch : ℕ → S → S) (mem : S → Mem) (fuel : ℕ) (Ok : S → Type 0)
    (keep : (c : ℕ) (s : S) → Ok s → Ok (putch c s)) (arg : ℕ → ℕ) where
  abbrev pub run : ℕ → List ℕ → ℕ → S → Option S
  run = format putch mem fuel arg

  -- The piece is printed, and more than enough rounds are left for the rest.
  pub record Prints (rounds : ℕ) (fmt rest : List ℕ) (next next' : ℕ) (cs : List ℕ) (s : S)
      : Type 0 where
    pub left : ℕ
    pub enough : length rest < left
    pub returns : run rounds (fmt ++ rest) next s ≡ run left rest next' (emit putch cs s)

  char_step :
      (rounds c : ℕ) (rest : List ℕ) (next : ℕ) (s : S)
      → c ≢ b'%'
      → run (suc rounds) (c ∷ rest) next s ≡ run rounds rest next (putch c s)
  unfolding format
  char_step rounds c rest next s h =
      let t : (c == b'%') ≡ false = ground arith in rw (format, t) refl

  pub literal-Prints :
      (cs : List ℕ) (rounds : ℕ) (rest : List ℕ) (next : ℕ) (s : S)
      → IsPlain cs
      → length (cs ++ rest) < rounds
      → Prints rounds cs rest next next cs s
  unfolding emit
  literal-Prints [] rounds rest next s h f = record { left = rounds; enough = f; returns = refl }
  literal-Prints (c ∷ cs) zero rest next s h f = absurd (omega arith)
  literal-Prints (c ∷ cs) (suc rounds) rest next s h f =
      let q = literal-Prints cs rounds rest next (putch c s) h.1 (omega arith) in
      record {
        left = q.left;
        enough = q.enough;
        returns = char_step rounds c (cs ++ rest) next s h.0 ∙ q.returns;
      }

  pub hex_step :
      (rounds x : ℕ) (rest : List ℕ) (next : ℕ) (s : S)
      → arg next ≡ x
      → x < 2 ^ 32
      → run (suc rounds) (codes "%08x" ++ rest) next s
        ≡ run rounds rest (next + 1) (emit putch (numeral 16 8 b'0' x) s)
  unfolding format flags convert number
  hex_step rounds x rest next s e small =
      rw (format, number, e, printnum-numeral 16 8 b'0' x (omega arith) (omega arith) (omega arith))
        refl

  pub oct_step :
      (rounds x : ℕ) (rest : List ℕ) (next : ℕ) (s : S)
      → arg next ≡ x
      → x < 2 ^ 32
      → run (suc rounds) (codes "%o" ++ rest) next s
        ≡ run rounds rest (next + 1) (emit putch (numeral 8 0 b' ' x) s)
  unfolding format flags convert number
  oct_step rounds x rest next s e small =
      rw (format, number, e, printnum-numeral 8 0 b' ' x (omega arith) (omega arith) (omega arith))
        refl

  pub uns_step :
      (rounds x : ℕ) (rest : List ℕ) (next : ℕ) (s : S)
      → arg next ≡ x
      → x < 2 ^ 32
      → run (suc rounds) (codes "%u" ++ rest) next s
        ≡ run rounds rest (next + 1) (emit putch (numeral 10 0 b' ' x) s)
  unfolding format flags convert number
  uns_step rounds x rest next s e small =
      rw (format, number, e, printnum-numeral 10 0 b' ' x (omega arith) (omega arith) (omega arith))
        refl

  pub low_hex_step :
      (rounds x : ℕ) (rest : List ℕ) (next : ℕ) (s : S)
      → arg next ≡ x
      → x < 2 ^ 32
      → run (suc rounds) (codes "%x" ++ rest) next s
        ≡ run rounds rest (next + 1) (emit putch (numeral 16 0 b' ' x) s)
  unfolding format flags convert number
  low_hex_step rounds x rest next s e small =
      rw (format, number, e, printnum-numeral 16 0 b' ' x (omega arith) (omega arith) (omega arith))
        refl

  pub ptr_step :
      (rounds x : ℕ) (rest : List ℕ) (next : ℕ) (s : S)
      → arg next ≡ x
      → x < 2 ^ 32
      → run (suc rounds) (codes "%p" ++ rest) next s
        ≡ run rounds rest (next + 1) (emit putch (piece_text (ptr x)) s)
  unfolding format flags convert number emit
  ptr_step rounds x rest next s e small =
      rw (format, number, e, printnum-numeral 16 0 b' ' x (omega arith) (omega arith) (omega arith))
        refl

  pub char_conversion :
      (rounds x : ℕ) (rest : List ℕ) (next : ℕ) (s : S)
      → arg next ≡ x
      → run (suc rounds) (codes "%c" ++ rest) next s ≡ run rounds rest (next + 1) (putch x s)
  unfolding format flags convert
  char_conversion rounds x rest next s e = rw (format, e) refl

  pub percent_step :
      (rounds : ℕ) (rest : List ℕ) (next : ℕ) (s : S)
      → run (suc rounds) (codes "%%" ++ rest) next s ≡ run rounds rest next (putch b'%' s)
  unfolding format flags convert
  percent_step rounds rest next s = refl

  decimal-emit :
      (x : ℕ) (s : S)
      → x < 2 ^ 32
      → decimal putch (if negative x then x + (2 ^ 64 - 2 ^ 32) else x) (fresh 0) s
        ≡ some (emit putch (piece_text (dec x)) s)
  unfolding decimal number emit
  decimal-emit x s small = elim (Bool-cases (negative x)) [
    | inl t ↦
        let long : leb (2 ^ 63) (x + (2 ^ 64 - 2 ^ 32)) ≡ true = ground arith in
        let back : 2 ^ 64 - (x + (2 ^ 64 - 2 ^ 32)) ≡ 2 ^ 32 - x = omega arith in
        rw
          (
            t,
            decimal,
            long,
            number,
            back,
            printnum-numeral 10 0 b' ' (2 ^ 32 - x) (omega arith) (omega arith) (omega arith),
          )
          refl
    | inr t ↦
        let short : leb (2 ^ 63) x ≡ false = ground arith in
        rw
          (
            t,
            decimal,
            short,
            number,
            printnum-numeral 10 0 b' ' x (omega arith) (omega arith) (omega arith),
          )
          refl
  ]

  pub dec_step :
      (rounds x : ℕ) (rest : List ℕ) (next : ℕ) (s : S)
      → arg next ≡ x
      → x < 2 ^ 32
      → run (suc rounds) (codes "%d" ++ rest) next s
        ≡ run rounds rest (next + 1) (emit putch (piece_text (dec x)) s)
  unfolding format flags convert getint
  dec_step rounds x rest next s e small =
      let printed = decimal-emit x s small in rw (format, getint, e, printed) refl

  pub str_step :
      (rounds a : ℕ) (cs rest : List ℕ) (next : ℕ) (s : S)
      → arg next ≡ a
      → Ok s
      → ((t : S) → Ok t → IsPlaced (mem t) fuel a cs)
      → run (suc rounds) (codes "%s" ++ rest) next s ≡ run rounds rest (next + 1) (emit putch cs s)
  unfolding format flags convert
  str_step rounds a cs rest next s e ok t =
      let here = t s ok in
      let printed =
        string-cut putch mem Ok keep a arg fuel (fresh next) cs s e here.0 (inr refl) refl ok
          (λ u h. (t u h).2) here.3 here.4 here.5 in
      rw (format, printed) refl

  pub cut_step :
      (rounds n a : ℕ) (cs rest : List ℕ) (next : ℕ) (s : S)
      → arg next ≡ n
      → arg (next + 1) ≡ a
      → Ok s
      → ((t : S) → Ok t → IsPlaced (mem t) fuel a cs)
      → run (suc rounds) (codes "%.*s" ++ rest) next s
        ≡ run rounds rest (next + 2) (emit putch (cut n cs) s)
  unfolding format flags convert
  cut_step rounds n a cs rest next s e e' ok t =
      let here = t s ok in
      let printed =
        string-cut putch mem Ok keep a arg fuel
          (record (fresh (next + 1)) { width = 0; precision = arg next }) cs s e' here.0 (inl refl)
          refl ok (λ u h. (t u h).2) here.3 here.4 here.5 in
      let two : next + 1 + 1 ≡ next + 2 = omega arith in rw (format, printed, e, two) refl
