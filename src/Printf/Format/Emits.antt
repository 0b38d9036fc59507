-- ===== src/Printf/Format/Emits.antt =====
-- What a function prints with `putch`.
use jos.Base.{
  ℕ, ◌-◌, ◌^◌, ◌≤◌, ◌<◌, ◌≡◌, refl, ap, map, ◌∙◌, true, false, Option, some, List, [], ◌∷◌, ◌++◌,
  arith, leb, dec_le, length, replicate,
}
use jos.Printf.{hex_digit}
use jos.Printf.Number.{printnum-Numeral}
use jos.Printf.Flags.{Spec}
use jos.Printf.Format.{emit, number, decimal, printed_width, emit_all}

-- The function returns, after the calls of `putch` for `printed`.
pub record Emits {S : Type 0} (putch : ℕ → S → S) (s : S) (result : Option S) : Type 0 where
  pub printed : List ℕ
  pub returns : result ≡ some (emit putch printed s)

module _ {S : Type 0} (putch : ℕ → S → S) where
  pub emit-append :
      (xs ys : List ℕ) (s : S) → emit putch (xs ++ ys) s ≡ emit putch ys (emit putch xs s)
  unfolding emit
  emit-append [] ys s = refl
  emit-append (x ∷ xs) ys s = emit-append xs ys (putch x s)

  pub Emits-emit :
      (cs : List ℕ) (s : S) (r : Option S) → Emits putch (emit putch cs s) r → Emits putch s r
  Emits-emit cs s r e = record {
    printed = cs ++ e.printed;
    returns = e.returns ∙ rw (emit-append cs e.printed s) refl;
  }

  pub Emits-putch : (c : ℕ) (s : S) (r : Option S) → Emits putch (putch c s) r → Emits putch s r
  unfolding emit
  Emits-putch c s r e = record { printed = c ∷ e.printed; returns = e.returns }

  pub number-Emits :
      (num base : ℕ) (f : Spec) (s : S)
      → 2 ≤ base
      → base ≤ 16
      → num < 2 ^ 64
      → Emits putch s (number putch num base f s)
  unfolding number
  number-Emits num base f s two top small =
      let n =
        printnum-Numeral 64 num base (printed_width f.width) f.padc two top small (omega arith) in
      record {
        printed =
            replicate (printed_width f.width - length n.digits) f.padc ++ map hex_digit n.digits;
        returns = ap (λ r. emit_all putch r s) n.returns;
      }

  pub decimal-Emits :
      (num : ℕ) (f : Spec) (s : S) → num < 2 ^ 64 → Emits putch s (decimal putch num f s)
  unfolding decimal
  decimal-Emits num f s small = elim (dec_le (2 ^ 63) num) [
    | yes h ↦
        let t : leb (2 ^ 63) num ≡ true = ground arith in
        rw t (
          Emits-putch b'-' s _ (
            number-Emits (2 ^ 64 - num) 10 f (putch b'-' s) (omega arith) (omega arith)
              (omega arith)))
    | no h ↦
        let t : leb (2 ^ 63) num ≡ false = ground arith in
        rw t (number-Emits num 10 f s (omega arith) (omega arith) small)
  ]

-- An invariant of `putch` holds after any number of calls.
pub emit-Ok :
    {S : Type 0} (putch : ℕ → S → S) (Ok : S → Type 0)
    (keep : (c : ℕ) (s : S) → Ok s → Ok (putch c s)) (cs : List ℕ) (s : S)
    → Ok s
    → Ok (emit putch cs s)
unfolding emit
emit-Ok putch Ok keep [] s ok = ok
emit-Ok putch Ok keep (c ∷ cs) s ok = emit-Ok putch Ok keep cs (putch c s) (keep c s ok)
