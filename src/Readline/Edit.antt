-- ===== src/Readline/Edit.antt =====
-- `readline` is a line editor.
use jos.Base.{
  ℕ, zero, suc, ◌+◌, ◌-◌, ◌<◌, ◌≡◌, ◌≢◌, refl, sym, ap, ◌∙◌, ◌&&◌, ◌||◌, List, [], ◌∷◌, ◌++◌, arith,
  ◌==◌, ltb, leb, if◌then◌else◌, length, length-append, length-take, take, get_or, ℕ_discrete,
}
use jos.Memory.{Mem, store}
use jos.Memory.Text.{IsText}
use jos.Str.Copy.{store-same, store_self}
use jos.Readline.{buflen}

-- What the editor shows after a character: backspace and delete take the last character away, and
-- others that can be printed are added, up to 1023. On an empty line delete counts as a character.
unfoldable pub typed_char : List ℕ → ℕ → List ℕ
typed_char line c =
    if (c == 0x08 || c == 0x7f) && ltb 0 (length line)
    then take (length line - 1) line
    else if leb 0x20 c && ltb (length line) (buflen - 1)
    then line ++ (c ∷ [])
    else line

unfoldable pub edited : List ℕ → List ℕ → List ℕ
edited line [] = line
edited line (c ∷ cs) = edited (typed_char line c) cs

-- Characters that do not end the line.
abbrev pub IsTyped : List ℕ → Type 0
IsTyped [] = 0 < 256
IsTyped (c ∷ cs) = (c < 256) × (c ≢ 0x0a) × (c ≢ 0x0d) × IsTyped cs

-- The first characters at `p` are those of the line.
pub record Shows (m : Mem) (p : ℕ) (line : List ℕ) : Type 0 where
  pub chars : (i : ℕ) → i < length line → m (p + i) ≡ get_or line i 0
  pub no_end : (i : ℕ) → i < length line → get_or line i 0 ≢ 0
  pub fits : length line < buflen

get_or-take : (n i : ℕ) (xs : List ℕ) → i < n → get_or (take n xs) i 0 ≡ get_or xs i 0
get_or-take zero i xs h = absurd (omega arith)
get_or-take (suc n) i [] h = refl
get_or-take (suc n) zero (x ∷ xs) h = refl
get_or-take (suc n) (suc i) (x ∷ xs) h = get_or-take n i xs (omega arith)

get_or-append :
    (xs : List ℕ) (c i : ℕ) → i < length xs → get_or (xs ++ (c ∷ [])) i 0 ≡ get_or xs i 0
get_or-append [] c i h = absurd (omega arith)
get_or-append (x ∷ xs) c zero h = refl
get_or-append (x ∷ xs) c (suc i) h = get_or-append xs c i (omega arith)

get_or-append_last : (xs : List ℕ) (c : ℕ) → get_or (xs ++ (c ∷ [])) (length xs) 0 ≡ c
get_or-append_last [] c = refl
get_or-append_last (x ∷ xs) c = get_or-append_last xs c

pub Shows-erase :
    (m : Mem) (p : ℕ) (line : List ℕ) → Shows m p line → Shows m p (take (length line - 1) line)
Shows-erase m p line s =
    let size = length-take (length line - 1) line in
    record {
      chars = λ i h.
          s.chars i (omega (arith, size))
          ∙ sym (get_or-take (length line - 1) i line (omega (arith, size)));
      no_end = λ i h e.
          s.no_end i (omega (arith, size))
            (sym (get_or-take (length line - 1) i line (omega (arith, size))) ∙ e);
      fits = omega (arith, size, s.fits);
    }

pub Shows-insert :
    (m : Mem) (p c : ℕ) (line : List ℕ)
    → Shows m p line
    → c ≢ 0
    → length line < buflen - 1
    → Shows (store m (p + length line) c) p (line ++ (c ∷ []))
Shows-insert m p c line s char room =
    let size = length-append line (c ∷ []) in
    record {
      chars = λ i h. elim (ℕ_discrete i (length line)) [
        | yes e ↦ rw e (store_self m (p + length line) c ∙ sym (get_or-append_last line c))
        | no n ↦
            store-same m (p + length line) c (p + i) (omega arith)
            ∙ s.chars i (omega (arith, size))
            ∙ sym (get_or-append line c i (omega (arith, size)))
      ];
      no_end = λ i h. elim (ℕ_discrete i (length line)) [
        | yes e ↦ rw (e, get_or-append_last line c) char
        | no n ↦
            rw (get_or-append line c i (omega (arith, size))) (s.no_end i (omega (arith, size)))
      ];
      fits = omega (arith, size);
    }

IsText-of_chars :
    (m : Mem) (p : ℕ) (line : List ℕ)
    → ((i : ℕ) → i < length line → m (p + i) ≡ get_or line i 0)
    → ((i : ℕ) → i < length line → get_or line i 0 ≢ 0)
    → m (p + length line) ≡ 0
    → IsText m p line
IsText-of_chars m p [] chars no_end ends = ap m (omega arith) ∙ ends
IsText-of_chars m p (c ∷ cs) chars no_end ends = (
  ap m (omega arith) ∙ chars 0 (omega arith),
  no_end 0 (omega arith),
  IsText-of_chars m (p + 1) cs (λ i h. ap m (omega arith) ∙ chars (suc i) (omega arith))
      (λ i h. no_end (suc i) (omega arith)) (ap m (omega arith) ∙ ends),
)

-- The 0 that is written behind the line ends it.
pub Shows-IsText :
    (m : Mem) (p : ℕ) (line : List ℕ) → Shows m p line → IsText (store m (p + length line) 0) p line
Shows-IsText m p line s =
    IsText-of_chars (store m (p + length line) 0) p line
      (λ i h. store-same m (p + length line) 0 (p + i) (omega arith) ∙ s.chars i h) s.no_end
      (store_self m (p + length line) 0)
