-- ===== src/Printf/Format/Strings.antt =====
-- What `%s` prints of a string in memory, and how a precision cuts it off.
use jos.Base.{
  ℕ, zero, suc, ◌+◌, ◌-◌, ◌^◌, ◌≤◌, ◌<◌, ◌≡◌, ◌≢◌, refl, ◌∙◌, ap, true, false, not, ◌&&◌, ◌||◌,
  some, List, [], ◌∷◌, ◌==◌, arith, if◌then◌else◌, take, length, ◌⊎◌, Bool-cases, inl, inr,
  ℕ_discrete, sym, get_or,
}
use mathlib.Core.Path.{fun_ext}
use jos.Types.{sub32}
use jos.Memory.{Mem}
use jos.Memory.Text.{IsText}
use jos.Printf.Flags.{char_int, Spec, negative, positive}
use jos.Printf.Format.{emit, text_loop, text, pad_behind, string}

abbrev pub IsAscii : List ℕ → Type 0
IsAscii [] = 0 < 128
IsAscii (c ∷ cs) = (c < 128) × IsAscii cs

-- The characters that a precision leaves; a negative one is none.
abbrev pub cut : ℕ → List ℕ → List ℕ
cut precision cs = if negative precision then cs else take precision cs

take_nil : (n : ℕ) → take {A = ℕ} n [] ≡ []
take_nil zero = refl
take_nil (suc n) = refl

cut_nil : (precision : ℕ) → cut precision [] ≡ []
cut_nil precision = ground (arith, take_nil precision)

abbrev pub next_precision : ℕ → ℕ
next_precision precision = if negative precision then precision else precision - 1

cut_cons :
    (precision c : ℕ) (cs : List ℕ)
    → precision ≢ 0
    → cut precision (c ∷ cs) ≡ c ∷ cut (next_precision precision) cs
cut_cons zero c cs more = absurd (more refl)
cut_cons (suc n) c cs more = elim (Bool-cases (negative (suc n))) [
  | inl t ↦ rw t (rw t refl)
  | inr t ↦
      let small : negative n ≡ false = ground arith in
      let e : suc n - 1 ≡ n = omega arith in rw (t, e, small) refl
]

take-le : (n : ℕ) (cs : List ℕ) → length (take n cs) ≤ length cs
take-le zero cs = omega arith
take-le (suc n) [] = omega arith
take-le (suc n) (c ∷ cs) = omega (arith, take-le n cs)

pub cut-le : (precision : ℕ) (cs : List ℕ) → length (cut precision cs) ≤ length cs
cut-le precision cs = elim (Bool-cases (negative precision)) [
  | inl t ↦ rw t (omega arith)
  | inr t ↦ rw t (take-le precision cs)
]

module _ {S : Type 0} (putch : ℕ → S → S) (mem : S → Mem) (Ok : S → Type 0)
    (keep : (c : ℕ) (s : S) → Ok s → Ok (putch c s)) (a : ℕ) where
  abbrev read : S → ℕ → ℕ
  read t i = mem t (a + i)

  stops :
      (fuel i width precision : ℕ) (s : S)
      → (char_int (read s i) == 0 || precision == 0) ≡ true
      → text_loop putch read (suc fuel) i width precision false s ≡ some (width, s)
  unfolding text_loop
  stops fuel i width precision s t = rw t refl

  goes_on :
      (fuel i width precision c : ℕ) (s : S)
      → read s i ≡ c
      → c ≢ 0
      → c < 128
      → precision ≢ 0
      → text_loop putch read (suc fuel) i width precision false s
        ≡ text_loop putch read fuel
            (i + 1)
            (sub32 width 1)
            (if negative precision then precision else precision - 1)
            false
            (putch c s)
  unfolding text_loop
  goes_on fuel i width precision c s e char small more =
      let same : char_int c ≡ c = ground arith in
      let on : (c == 0 || precision == 0) ≡ false = ground arith in rw (text_loop, e, same, on) refl

  pub text_loop-cut :
      (cs : List ℕ) (fuel i width precision : ℕ) (s : S)
      → Ok s
      → ((t : S) → Ok t → IsText (mem t) (a + i) cs)
      → IsAscii cs
      → length cs < fuel
      → width < 2 ^ 32
      → length cs < 2 ^ 31
      → text_loop putch read fuel i width precision false s
        ≡ some (sub32 width (length (cut precision cs)), emit putch (cut precision cs) s)
  unfolding emit
  text_loop-cut cs zero i width precision s ok t ascii f w small = absurd (omega arith)
  text_loop-cut [] (suc fuel) i width precision s ok t ascii f w small =
      let end : read s i ≡ 0 = t s ok in
      let stop : (char_int (read s i) == 0 || precision == 0) ≡ true = ground arith in
      let none_cut : sub32 width 0 ≡ width = omega arith in
      rw (stops fuel i width precision s stop, cut_nil precision, none_cut) refl
  text_loop-cut (c ∷ cs) (suc fuel) i width precision s ok t ascii f w small =
      elim (ℕ_discrete precision 0) [
        | yes e ↦
            let stop : (char_int (read s i) == 0 || precision == 0) ≡ true = ground arith in
            let none_cut : sub32 width 0 ≡ width = omega arith in
            rw (stops fuel i width precision s stop) (rw (e, none_cut) refl)
        | no more ↦
            let here : read s i ≡ c = (t s ok).0 in
            let next : a + i + 1 ≡ a + (i + 1) = omega arith in
            let rest =
              text_loop-cut cs fuel (i + 1) (sub32 width 1) (next_precision precision) (putch c s)
                (keep c s ok) (λ u h. rw next at ((t u h).2)) ascii.1 (omega arith) (omega arith)
                (omega arith) in
            let n = length (cut (next_precision precision) cs) in
            let count : sub32 (sub32 width 1) n ≡ sub32 width (suc n) =
              omega (arith, cut-le (next_precision precision) cs) in
            rw
              (
                goes_on fuel i width precision c s here (t s ok).1 ascii.0 more,
                rest,
                count,
                cut_cons precision c cs more,
              )
              refl
      ]

  no_padding : (w n : ℕ) → (w ≡ 0) ⊎ (w ≡ 2 ^ 32 - 1) → n < 2 ^ 31 → positive (sub32 w n) ≡ false
  no_padding w n e small = ground arith

  padded_nothing :
      (w n : ℕ) (s : S)
      → (w ≡ 0) ⊎ (w ≡ 2 ^ 32 - 1)
      → n < 2 ^ 31
      → pad_behind putch (some (sub32 w n, s)) ≡ some s
  unfolding emit
  padded_nothing w n s e small = rw (no_padding w n e small) refl

  -- A text at `a`, without a width; `mem'` is not looked at.
  pub text-cut :
      (mem' : S → Mem) (fuel : ℕ) (f : Spec) (cs : List ℕ) (s : S)
      → (f.width ≡ 0) ⊎ (f.width ≡ 2 ^ 32 - 1)
      → f.altflag ≡ false
      → Ok s
      → ((t : S) → Ok t → IsText (mem t) a cs)
      → IsAscii cs
      → length cs < fuel
      → length cs < 2 ^ 31
      → text putch mem' fuel read f s ≡ some (emit putch (cut f.precision cs) s)
  unfolding text
  text-cut mem' fuel f cs s width plain ok t ascii long small =
      let no_front : (positive f.width && not (f.padc == b'-')) ≡ false = ground arith in
      let start : (u : S) → Ok u → IsText (mem u) (a + 0) cs =
        λ u h. (let e : a + 0 ≡ a = omega arith in rw e (t u h)) in
      let loop =
        text_loop-cut cs fuel 0 f.width f.precision s ok start ascii long (omega arith) small in
      let n = length (cut f.precision cs) in
      let done =
        padded_nothing f.width n (emit putch (cut f.precision cs) s) width
          (omega (arith, cut-le f.precision cs)) in
      rw (text, no_front, plain, loop) done

  -- `%s` of a string at `a`, without a width.
  pub string-cut :
      (arg : ℕ → ℕ) (fuel : ℕ) (f : Spec) (cs : List ℕ) (s : S)
      → arg f.next ≡ a
      → a ≢ 0
      → (f.width ≡ 0) ⊎ (f.width ≡ 2 ^ 32 - 1)
      → f.altflag ≡ false
      → Ok s
      → ((t : S) → Ok t → IsText (mem t) a cs)
      → IsAscii cs
      → length cs < fuel
      → length cs < 2 ^ 31
      → string putch mem fuel arg f s ≡ some (emit putch (cut f.precision cs) s)
  unfolding string
  string-cut arg fuel f cs s at not_null width plain ok t ascii long small =
      let no_null : (a == 0) ≡ false = ground arith in
      rw (string, at, no_null) (text-cut mem fuel f cs s width plain ok t ascii long small)

-- The ok for a literal of the program.
abbrev pub list_memory : List ℕ → Mem
list_memory cs i = get_or cs i 0

module _ {S : Type 0} (putch : ℕ → S → S) where
  pub text-cut_list :
      (mem : S → Mem) (fuel : ℕ) (f : Spec) (cs : List ℕ) (s : S)
      → (f.width ≡ 0) ⊎ (f.width ≡ 2 ^ 32 - 1)
      → f.altflag ≡ false
      → IsText (list_memory cs) 0 cs
      → IsAscii cs
      → length cs < fuel
      → length cs < 2 ^ 31
      → text putch mem fuel (λ _ i. get_or cs i 0) f s ≡ some (emit putch (cut f.precision cs) s)
  text-cut_list mem fuel f cs s width plain t ascii long small =
      let from_0 : (i : ℕ) → get_or cs (0 + i) 0 ≡ get_or cs i 0 =
        λ i. ap (λ (j : ℕ). get_or cs j 0) (omega arith) in
      ap (λ (read : ℕ → ℕ). text putch mem fuel (λ _. read) f s) (sym (fun_ext from_0))
      ∙ text-cut putch (λ _. list_memory cs) (λ _. 0 ≤ 0) (λ _ _ ok. ok) 0 mem fuel f cs s width
          plain (omega arith) (λ _ _. t) ascii long small
