-- ===== src/Printf/Format/Total.antt =====
-- `vprintfmt` returns, and all it does is a sequence of calls of `putch`.
use jos.Base.{
  ℕ, zero, suc, ◌+◌, ◌^◌, ◌≤◌, ◌<◌, ◌≡◌, refl, ap, Bool, true, false, Option, none, some, List, [],
  ◌∷◌, ◌==◌, arith, Bool-cases, inl, inr, if◌then◌else◌, leb, not, ◌&&◌, get_or, length,
}
use jos.Memory.{Mem}
use jos.Types.{u32, sub32}
use jos.Printf.Flags.{Spec, fresh, getuint, getint, flag, flags, end_digits, negative, long_next}
use jos.Printf.Format.{
  emit, text, error, string, convert, format, vprintfmt, after_text, after_number, is_conversion,
  codes, error_string, print_error, maxerror, number, decimal,
}
use jos.Printf.Format.Emits.{Emits, Emits-emit, Emits-putch, number-Emits, decimal-Emits, emit-Ok}
use jos.Printf.Format.Texts.{text-Emits}

either {ℓ} : {A : Type 0} (P : A → Type ℓ) (b : Bool) (x y : A) → P x → P y → P (if b then x else y)
either P true x y px py = px
either P false x y px py = py

get_or-length : (cs : List ℕ) → get_or cs (length cs) 0 ≡ 0
get_or-length [] = refl
get_or-length (c ∷ cs) = get_or-length cs

-- The literals have fewer than 20 characters.
Short : Option (List ℕ) → Type 0
Short none = 0 < 20
Short (some cs) = length cs < 20

none-Short : Short none
unfolding Short
none-Short = omega arith

error_string-Short : (err : ℕ) → Short (error_string err)
unfolding error_string Short
error_string-Short err = either Short (err == 1) _ _ (omega arith) (
    either Short (err == 2) _ _ (omega arith) (
      either Short (err == 3) _ _ (omega arith) (
        either Short (err == 4) _ _ (omega arith) (
          either Short (err == 5) _ _ (omega arith)
            (either Short (err == 6) _ _ (omega arith) (omega arith))))))

-- A conversion returned, after the calls of `putch` for `printed`.
record Converts {S : Type 0} (putch : ℕ → S → S) (s : S) (result : Option (ℕ × S)) : Type 0 where
  printed : List ℕ
  next : ℕ
  returns : result ≡ some (next, emit putch printed s)

flags-length :
    (arg : ℕ → ℕ) (n : Option ℕ) (f : Spec) (fmt : List ℕ)
    → length (flags arg n f fmt).1.1 ≤ length fmt
unfolding flags
flags-length arg n f [] = omega arith
flags-length arg n f (c ∷ rest) =
    elim (flag arg n f c)
      as (λ o.
        let r : ℕ × (Spec × List ℕ) = elim o [
          | none ↦ (c, (end_digits n f, rest))
          | some (n', f') ↦ flags arg n' f' rest
        ] in
        length r.1.1 ≤ suc (length rest)) [
          | none ↦ omega arith
          | some (n', f') ↦ omega (arith, flags-length arg n' f' rest)
        ]

module _ {S : Type 0} (putch : ℕ → S → S) (mem : S → Mem) (fuel : ℕ) (Ok : S → Type 0)
    (keep : (c : ℕ) (s : S) → Ok s → Ok (putch c s)) (room : 20 ≤ fuel) where
  literal-Emits :
      (cs : List ℕ) (f : Spec) (s : S)
      → length cs < 20
      → Ok s
      → Emits putch s (text putch mem fuel (λ _ i. get_or cs i 0) f s)
  literal-Emits cs f s short ok =
      text-Emits putch Ok keep (λ _ i. get_or cs i 0) (length cs) (λ _ _. get_or-length cs) mem fuel
        f s ok (omega arith)

  number_error-Emits :
      (err : ℕ) (s : S)
      → err < 2 ^ 32
      → Emits putch s (decimal putch err (fresh 0) (emit putch (codes "error ") s))
  number_error-Emits err s small =
      Emits-emit putch (codes "error ") s _
        (decimal-Emits putch err (fresh 0) (emit putch (codes "error ") s) (omega arith))

  print_error-Emits :
      (err : ℕ) (o : Option (List ℕ)) (s : S)
      → err < 2 ^ 32
      → Short o
      → Ok s
      → Emits putch s (print_error putch mem fuel err o s)
  unfolding print_error Short
  print_error-Emits err none s small short ok = number_error-Emits err s small
  print_error-Emits err (some cs) s small short ok = literal-Emits cs (fresh 0) s short ok

  error-Emits :
      (word : ℕ) (s : S) → word < 2 ^ 32 → Ok s → Emits putch s (error putch mem fuel word s)
  unfolding error
  error-Emits word s small ok =
      let err = if negative word then sub32 0 word else word in
      let bound : err < 2 ^ 32 = ground arith in
      print_error-Emits err
        (if not (negative err) && leb maxerror err then none else error_string err) s bound
        (either Short (not (negative err) && leb maxerror err) none (error_string err) none-Short
          (error_string-Short err))
        ok

  Converts-text :
      (f : Spec) (s : S) (r : Option S) → Emits putch s r → Converts putch s (after_text f r)
  Converts-text f s r e = record {
    printed = e.printed;
    next = f.next + 1;
    returns = ap (after_text f) e.returns;
  }

  Converts-number :
      (next : ℕ) (s : S) (r : Option S) → Emits putch s r → Converts putch s (after_number next r)
  Converts-number next s r e = record {
    printed = e.printed;
    next = next;
    returns = ap (after_number next) e.returns;
  }

  Converts-char : (c next : ℕ) (s : S) → Converts putch s (some (next, putch c s))
  unfolding emit
  Converts-char c next s = record { printed = c ∷ []; next = next; returns = refl }

  -- Each argument is a 32-bit word, and taken as an address it has a 0 in front of it at `len`.
  module _ (arg : ℕ → ℕ) (word : (i : ℕ) → arg i < 2 ^ 32) (len : ℕ → ℕ)
      (short : (i : ℕ) → len i < fuel)
      (ends : (i : ℕ) (s : S) → Ok s → mem s (arg i + len i) ≡ 0) where
    string-Emits : (f : Spec) (s : S) → Ok s → Emits putch s (string putch mem fuel arg f s)
    unfolding string
    string-Emits f s ok =
        either (Emits putch s) (arg f.next == 0) _ _
          (literal-Emits (codes "(null)") f s (omega arith) ok)
          (text-Emits putch Ok keep (λ t i. mem t (arg f.next + i)) (len f.next) (ends f.next) mem
            fuel f s ok (short f.next))

    getuint_bound : (f : Spec) → getuint arg f < 2 ^ 64
    unfolding getuint
    getuint_bound f = ground (arith, word f.next, word (f.next + 1))

    getint_bound : (f : Spec) → getint arg f < 2 ^ 64
    unfolding getint
    getint_bound f = ground (arith, word f.next, word (f.next + 1))

    Converts-unsigned :
        (base : ℕ) (f : Spec) (s : S)
        → 2 ≤ base
        → base ≤ 16
        → Converts putch s (after_number (long_next arg f) (number putch (getuint arg f) base f s))
    Converts-unsigned base f s two top =
        Converts-number (long_next arg f) s _
          (number-Emits putch (getuint arg f) base f s two top (getuint_bound f))

    Converts-pointer :
        (f : Spec) (s : S)
        → Converts putch s
            (after_number (f.next + 1) (number putch (arg f.next) 16 f (putch b'x' (putch b'0' s))))
    Converts-pointer f s = Converts-number (f.next + 1) s _ (
        Emits-putch putch b'0' s _ (
          Emits-putch putch b'x' (putch b'0' s) _ (
            number-Emits putch (arg f.next) 16 f (putch b'x' (putch b'0' s)) (omega arith)
              (omega arith) (omega (arith, word f.next)))))

    convert-Converts :
        (ch : ℕ) (f : Spec) (s : S) → Ok s → Converts putch s (convert putch mem fuel arg ch f s)
    unfolding convert
    convert-Converts ch f s ok =
        let P = Converts putch s in
        let next = long_next arg f in
        either P (ch == b'c') _ _ (Converts-char (arg f.next) (f.next + 1) s) (
          either P (ch == b'e') _ _
            (Converts-text f s _ (error-Emits (arg f.next) s (word f.next) ok))
            (either P (ch == b's') _ _ (Converts-text f s _ (string-Emits f s ok)) (
              either P (ch == b'd') _ _
                (Converts-number next s _ (decimal-Emits putch (getint arg f) f s (getint_bound f)))
                (either P (ch == b'u') _ _ (Converts-unsigned 10 f s (omega arith) (omega arith)) (
                  either P (ch == b'o') _ _ (Converts-unsigned 8 f s (omega arith) (omega arith)) (
                    either P (ch == b'p') _ _ (Converts-pointer f s) (
                      either P (ch == b'x') _ _
                        (Converts-unsigned 16 f s (omega arith) (omega arith))
                        (Converts-char b'%' f.next s))))))))

    format_plain :
        (rounds c : ℕ) (rest : List ℕ) (next : ℕ) (s : S)
        → (c == b'%') ≡ false
        → format putch mem fuel arg (suc rounds) (c ∷ rest) next s
          ≡ format putch mem fuel arg rounds rest next (putch c s)
    unfolding format
    format_plain rounds c rest next s t = rw (format, t) refl

    format_escape :
        (rounds c : ℕ) (rest : List ℕ) (next : ℕ) (s : S) (next' : ℕ) (s' : S)
        → (c == b'%') ≡ true
        → (let e = flags arg none (fresh next) rest in
            convert putch mem fuel arg e.0 e.1.0 s ≡ some (next', s'))
        → let e = flags arg none (fresh next) rest in
          format putch mem fuel arg (suc rounds) (c ∷ rest) next s
          ≡ format putch mem fuel arg rounds
              (if is_conversion putch mem fuel arg e.0 then e.1.1 else rest)
              next'
              s'
    unfolding format
    format_escape rounds c rest next s next' s' t e = rw (format, t, e) refl

    format-Emits :
        (rounds : ℕ) (fmt : List ℕ) (next : ℕ) (s : S)
        → length fmt < rounds
        → Ok s
        → Emits putch s (format putch mem fuel arg rounds fmt next s)
    unfolding format emit
    format-Emits zero fmt next s lt ok = absurd (omega arith)
    format-Emits (suc rounds) [] next s lt ok = record { printed = []; returns = refl }
    format-Emits (suc rounds) (c ∷ rest) next s lt ok =
        let e = flags arg none (fresh next) rest in
        let done = convert-Converts e.0 e.1.0 s ok in
        let s' = emit putch done.printed s in
        let behind = if is_conversion putch mem fuel arg e.0 then e.1.1 else rest in
        let fits : length behind < rounds =
          either (λ l. length l < rounds) (is_conversion putch mem fuel arg e.0) e.1.1 rest
            (omega (arith, flags-length arg none (fresh next) rest)) (omega arith) in
        elim (Bool-cases (c == b'%')) [
          | inl t ↦ rw (format_escape rounds c rest next s done.next s' t done.returns) (
              Emits-emit putch done.printed s _ (
                format-Emits rounds behind done.next s' fits
                  (emit-Ok putch Ok keep done.printed s ok)))
          | inr t ↦ rw (format_plain rounds c rest next s t) (
              Emits-putch putch c s _
                (format-Emits rounds rest next (putch c s) (omega arith) (keep c s ok)))
        ]

-- Where `putch` keeps what is needed for it (`Ok`) that every argument, taken as an address, has a 0
-- fewer than `fuel` bytes on, `vprintfmt` returns for every format, and all it has done is to call
-- `putch` for a sequence of characters.
pub vprintfmt-Emits :
    {S : Type 0} (putch : ℕ → S → S) (mem : S → Mem) (fuel : ℕ) (Ok : S → Type 0) (fmt : List ℕ)
    (ap len : ℕ → ℕ) (s : S)
    → ((c : ℕ) (t : S) → Ok t → Ok (putch c t))
    → ((i : ℕ) → len i < fuel)
    → ((i : ℕ) (t : S) → Ok t → mem t (u32 (ap i) + len i) ≡ 0)
    → 20 ≤ fuel
    → Ok s
    → Emits putch s (vprintfmt putch mem fuel fmt ap s)
unfolding vprintfmt
vprintfmt-Emits putch mem fuel Ok fmt ap len s keep short ends room ok =
    format-Emits putch mem fuel Ok keep room (λ i. u32 (ap i)) (λ i. omega arith) len short ends
      (length fmt + 1) fmt 0 s (omega arith) ok
