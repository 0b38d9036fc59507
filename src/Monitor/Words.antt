-- ===== src/Monitor/Words.antt =====
-- The words of a command line.
use jos.Base.{
  ℕ, ◌≡◌, refl, true, false, Bool-cases, inl, inr, List, [], ◌∷◌, ◌++◌, if◌then◌else◌, arith, ◌≤◌,
  length,
}
use jos.Monitor.{is_white}

-- A word before other words, unless it is empty.
abbrev pub before : List ℕ → List (List ℕ) → List (List ℕ)
before [] ws = ws
before (c ∷ w) ws = (c ∷ w) ∷ ws

-- The word that a line starts with, empty where it starts with white space, and the words behind it.
unfoldable pub split : List ℕ → List ℕ × List (List ℕ)
split [] = ([], [])
split (c ∷ cs) =
    let rest = split cs in if is_white c then ([], before rest.0 rest.1) else (c ∷ rest.0, rest.1)

abbrev pub words : List ℕ → List (List ℕ)
words cs = before (split cs).0 (split cs).1

-- Nothing, or the first character of a word.
abbrev pub StartsWord : List ℕ → Type 0
StartsWord [] = true ≡ true
StartsWord (c ∷ cs) = is_white c ≡ false

-- Nothing, or white space first.
abbrev pub EndsWord : List ℕ → Type 0
EndsWord [] = true ≡ true
EndsWord (c ∷ cs) = is_white c ≡ true

abbrev pub NoWhite : List ℕ → Type 0
NoWhite [] = true ≡ true
NoWhite (c ∷ cs) = (is_white c ≡ false) × NoWhite cs

pub words_nil : words [] ≡ []
unfolding split
words_nil = refl

pub words_white : (c : ℕ) (cs : List ℕ) → is_white c ≡ true → words (c ∷ cs) ≡ words cs
unfolding split
words_white c cs white = rw white refl

split_ends : (cs : List ℕ) → EndsWord cs → split cs ≡ ([], words cs)
unfolding split
split_ends [] e = refl
split_ends (c ∷ cs) e = rw e refl

split-append : (w cs : List ℕ) → NoWhite w → EndsWord cs → split (w ++ cs) ≡ (w, words cs)
unfolding split
split-append [] cs n e = split_ends cs e
split-append (c ∷ w) cs n e = rw (n.0, split-append w cs n.1 e) refl

-- A word with the rest of the line behind it is the first word.
pub words-append :
    (c : ℕ) (w cs : List ℕ)
    → NoWhite (c ∷ w)
    → EndsWord cs
    → words ((c ∷ w) ++ cs) ≡ (c ∷ w) ∷ words cs
words-append c w cs n e = rw (split-append (c ∷ w) cs n e) refl

-- No word is longer than the line.
abbrev pub first : List (List ℕ) → List ℕ
first [] = []
first (w ∷ ws) = w

length-split : (cs : List ℕ) → length (split cs).0 ≤ length cs
unfolding split
length-split [] = omega arith
length-split (c ∷ cs) = elim (Bool-cases (is_white c)) [
  | inl white ↦ rw white (omega arith)
  | inr black ↦ rw black (omega (arith, length-split cs))
]

pub length-first : (cs : List ℕ) → length (first (words cs)) ≤ length cs
unfolding split
length-first [] = omega arith
length-first (c ∷ cs) = elim (Bool-cases (is_white c)) [
  | inl white ↦ rw white (omega (arith, length-first cs))
  | inr black ↦ rw black (omega (arith, length-split cs))
]
