-- ===== src/Printf/Format/Texts.antt =====
-- The texts that `%s` prints end.
use jos.Base.{
  Bool-cases, inl, inr, ℕ, zero, suc, ◌+◌, ◌-◌, ◌≤◌, ◌<◌, ◌≡◌, ◌≢◌, refl, ◌∙◌, ap, Bool, true,
  false, not, ◌&&◌, ◌||◌, Option, some, List, [], ◌∷◌, ◌++◌, ◌==◌, ltb, arith, if◌then◌else◌,
  replicate,
}
use jos.Types.{sub32}
use jos.Memory.{Mem}
use jos.Str.{strnlen}
use jos.Printf.Flags.{char_int, Spec, negative, positive}
use jos.Printf.Format.{emit, text_loop, text, pad_behind}
use jos.Printf.Format.Emits.{Emits, Emits-emit, emit-append, emit-Ok}

-- The loop ended, after the calls of `putch` for `printed`, with the width `left`.
record TextEmits {S : Type 0} (putch : ℕ → S → S) (s : S) (result : Option (ℕ × S)) : Type 0 where
  printed : List ℕ
  left : ℕ
  returns : result ≡ some (left, emit putch printed s)

-- `Ok` is an invariant of `putch`, and while it holds, the text ends at `len`.
module _ {S : Type 0} (putch : ℕ → S → S) (Ok : S → Type 0)
    (keep : (c : ℕ) (s : S) → Ok s → Ok (putch c s)) (read : S → ℕ → ℕ) (len : ℕ)
    (ends : (s : S) → Ok s → read s len ≡ 0) where
  abbrev shown : ℕ → Bool → ℕ
  shown ch altflag = if altflag && (ltb ch b' ' || ltb b'~' ch) then b'?' else ch

  abbrev next_precision : ℕ → ℕ
  next_precision precision = if negative precision then precision else precision - 1

  text_loop_stop :
      (fuel i width precision : ℕ) (altflag : Bool) (s : S)
      → (char_int (read s i) == 0 || precision == 0) ≡ true
      → text_loop putch read (suc fuel) i width precision altflag s ≡ some (width, s)
  unfolding text_loop
  text_loop_stop fuel i width precision altflag s t = rw t refl

  text_loop_more :
      (fuel i width precision : ℕ) (altflag : Bool) (s : S)
      → (char_int (read s i) == 0 || precision == 0) ≡ false
      → text_loop putch read (suc fuel) i width precision altflag s
        ≡ text_loop putch read fuel
            (i + 1)
            (sub32 width 1)
            (next_precision precision)
            altflag
            (putch (shown (char_int (read s i)) altflag) s)
  unfolding text_loop
  text_loop_more fuel i width precision altflag s t = rw t refl

  text_on :
      (i precision : ℕ) (s : S)
      → read s i ≡ 0
      → (char_int (read s i) == 0 || precision == 0) ≢ false
  text_on i precision s e = ground arith

  text_loop-TextEmits :
      (fuel i width precision : ℕ) (altflag : Bool) (s : S)
      → Ok s
      → i ≤ len
      → len < i + fuel
      → TextEmits putch s (text_loop putch read fuel i width precision altflag s)
  unfolding emit
  text_loop-TextEmits zero i width precision altflag s ok le lt = absurd (omega arith)
  text_loop-TextEmits (suc fuel) i width precision altflag s ok le lt =
      elim (Bool-cases (char_int (read s i) == 0 || precision == 0)) [
        | inl t ↦ record {
          printed = [];
          left = width;
          returns = text_loop_stop fuel i width precision altflag s t;
        }
        | inr t ↦
            let c = shown (char_int (read s i)) altflag in
            let apart : i ≢ len = λ e. text_on i precision s (ap (read s) e ∙ ends s ok) t in
            let rest =
              text_loop-TextEmits fuel (i + 1) (sub32 width 1) (next_precision precision) altflag
                (putch c s) (keep c s ok) (omega arith) (omega arith) in
            record {
              printed = c ∷ rest.printed;
              left = rest.left;
              returns = text_loop_more fuel i width precision altflag s t ∙ rest.returns;
            }
      ]

  pad_behind-Emits :
      (s : S) (r : Option (ℕ × S)) → TextEmits putch s r → Emits putch s (pad_behind putch r)
  pad_behind-Emits s r t =
      let n = if positive t.left then t.left else 0 in
      record {
        printed = t.printed ++ replicate n b' ';
        returns =
            ap (pad_behind putch) t.returns
            ∙ rw (emit-append putch t.printed (replicate n b' ') s) refl;
      }

  pub text-Emits :
      (mem : S → Mem) (fuel : ℕ) (f : Spec) (s : S)
      → Ok s
      → len < fuel
      → Emits putch s (text putch mem fuel read f s)
  unfolding text
  text-Emits mem fuel f s ok lt =
      let pads = replicate (f.width - strnlen (read s) 0 f.precision) f.padc in
      elim (Bool-cases (positive f.width && not (f.padc == b'-'))) [
        | inl t ↦ rw t (
            Emits-emit putch pads s _ (
              pad_behind-Emits (emit putch pads s) _ (
                text_loop-TextEmits fuel 0 _ f.precision f.altflag (emit putch pads s)
                  (emit-Ok putch Ok keep pads s ok) (omega arith) (omega arith))))
        | inr t ↦ rw t (
            pad_behind-Emits s _ (
              text_loop-TextEmits fuel 0 f.width f.precision f.altflag s ok (omega arith)
                (omega arith)))
      ]
