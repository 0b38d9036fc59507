-- ===== src/Monitor/Run.antt =====
-- `runcmd` calls the command that the line names.
use jos.Base.{
  ℕ, ◌+◌, ◌≤◌, ◌<◌, ◌≡◌, ◌⊎◌, ◌↔◌, refl, true, false, Bool, ◌&&◌, inl, inr, ◌==◌, Bool-cases,
  Option, none, some, List, [], ◌∷◌, arith, length, if◌then◌else◌,
}
use jos.Base.Int.{ℤ, pos}
use jos.Memory.{Mem}
use jos.Memory.Text.{IsText, IsText-frame}
use jos.Str.Order.{strcmp_eq}
use jos.Monitor.{
  is_zero, arguments, Request, nothing, refused, find_command, request, lookup, runcmd,
}
use jos.Monitor.Words.{words, first, length-first}
use jos.Monitor.Parse.{AreTexts, AreInside, parse-Parses}
use jos.Monitor.Parse.Refused.{parse_too_many}

unfoldable pub equal_text : List ℕ → List ℕ → Bool
equal_text [] [] = true
equal_text [] (y ∷ ys) = false
equal_text (x ∷ xs) [] = false
equal_text (x ∷ xs) (y ∷ ys) = x == y && equal_text xs ys

equal_text_iff : (xs ys : List ℕ) → (equal_text xs ys ≡ true) ↔ (xs ≡ ys)
unfolding equal_text
equal_text_iff [] [] = (λ _. refl, λ _. refl)
equal_text_iff [] (y ∷ ys) = (λ e. cc, λ e. cc)
equal_text_iff (x ∷ xs) [] = (λ e. cc, λ e. cc)
equal_text_iff (x ∷ xs) (y ∷ ys) = ground (arith, equal_text_iff xs ys)

-- The index of the first command with this name, counted from `i`.
unfoldable pub position : ℕ → List (List ℕ) → List ℕ → Option ℕ
position i [] w = none
position i (name ∷ table) w = if equal_text w name then some i else position (i + 1) table w

is_zero_iff : (d : ℤ) → (is_zero d ≡ true) ↔ (d ≡ pos 0)
is_zero_iff d = ground arith

-- What a line with these words asks for, the arguments being at `argv`.
unfoldable pub answered : List (List ℕ) → List (List ℕ) → List ℕ → Request
answered table [] argv = nothing
answered table (w ∷ ws) [] = nothing
answered table (w ∷ ws) (argv0 ∷ argv) = request argv0 (argv0 ∷ argv) (position 0 table w)

-- The names of the commands stand outside the line.
abbrev pub AreApart : ℕ → ℕ → List ℕ → List (List ℕ) → Type 0
AreApart p n [] ws = true ≡ true
AreApart p n (q ∷ qs) [] = true ≡ true
AreApart p n (q ∷ qs) (w ∷ ws) = ((q + length w < p) ⊎ (p + n ≤ q)) × AreApart p n qs ws

AreTexts-frame :
    (m m' : Mem) (p n : ℕ) (qs : List ℕ) (ws : List (List ℕ))
    → AreTexts m qs ws
    → AreApart p n qs ws
    → ((q : ℕ) → (q < p) ⊎ (p + n ≤ q) → m' q ≡ m q)
    → AreTexts m' qs ws
AreTexts-frame m m' p n [] [] t apart same = refl
AreTexts-frame m m' p n [] (w ∷ ws) t apart same = t
AreTexts-frame m m' p n (q ∷ qs) [] t apart same = t
AreTexts-frame m m' p n (q ∷ qs) (w ∷ ws) t apart same = (
  IsText-frame m m' q w (λ a h k. same a (omega (arith, apart.0))) t.0,
  AreTexts-frame m m' p n qs ws t.1 apart.1 same,
)

find_command-position :
    (fuel i : ℕ) (m : Mem) (argv0 : ℕ) (w : List ℕ) (names : List ℕ) (table : List (List ℕ))
    → IsText m argv0 w
    → length w < fuel
    → AreTexts m names table
    → find_command fuel m argv0 i names ≡ some (position i table w)
unfolding find_command position
find_command-position fuel i m argv0 w [] [] t f texts = refl
find_command-position fuel i m argv0 w [] (name ∷ table) t f texts = cc
find_command-position fuel i m argv0 w (q ∷ names) [] t f texts = cc
find_command-position fuel i m argv0 w (q ∷ names) (name ∷ table) t f texts =
    let (d, returns, zero_iff) = strcmp_eq fuel m argv0 q w name t texts.0 f in
    let rest = find_command-position fuel (i + 1) m argv0 w names table t f texts.1 in
    elim (Bool-cases (equal_text w name)) [
      | inl e ↦
          let z : is_zero d ≡ true = (is_zero_iff d).1 (zero_iff.1 ((equal_text_iff w name).0 e)) in
          rw (find_command, returns, z, e) refl
      | inr e ↦ elim (Bool-cases (is_zero d)) [
        | inl z ↦ let e' = (equal_text_iff w name).1 (zero_iff.0 ((is_zero_iff d).0 z)) in cc
        | inr z ↦ rw (find_command, returns, z, e) rest
      ]
    ]

lookup-answered :
    (fuel : ℕ) (m : Mem) (names argv : List ℕ) (table ws : List (List ℕ))
    → AreTexts m names table
    → AreTexts m argv ws
    → length (first ws) < fuel
    → lookup fuel names (m, arguments argv) ≡ some (m, answered table ws argv)
unfolding lookup answered
lookup-answered fuel m names [] table [] texts args f = refl
lookup-answered fuel m names [] table (w ∷ ws) texts args f = refl
lookup-answered fuel m names (p ∷ argv) table [] texts args f = cc
lookup-answered fuel m names (p ∷ argv) table (w ∷ ws) texts args f =
    rw (find_command-position fuel 0 m p w names table args.0 f texts) refl

-- For a line of at most 15 words, `runcmd` returns what the line asks for: nothing for an empty
-- line, the command that the first word names, with all words of the line as its arguments, or
-- the message that there is none. The arguments are strings in the line, which is all that was
-- written.
pub runcmd-answered :
    (fuel : ℕ) (m : Mem) (p : ℕ) (cs names : List ℕ) (table : List (List ℕ))
    → IsText m p cs
    → length cs < fuel
    → length (words cs) ≤ 15
    → AreTexts m names table
    → AreApart p (length cs) names table
    → (m' : Mem) × (argv : List ℕ) × (runcmd fuel names m p
        ≡ some (m', answered table (words cs) argv))
      × AreTexts m' argv (words cs)
      × AreInside p (p + length cs) argv
      × ((q : ℕ) → (q < p) ⊎ (p + length cs ≤ q) → m' q ≡ m q)
unfolding runcmd
runcmd-answered fuel m p cs names table t f few texts apart =
    let line = parse-Parses fuel fuel m p cs [] t f f (omega arith) in
    let texts' = AreTexts-frame m line.after p (length cs) names table texts apart line.same in
    (
      line.after,
      line.found,
      rw line.returns (
          lookup-answered fuel line.after names line.found table (words cs) texts' line.texts
            (omega (arith, length-first cs))),
      line.texts,
      line.inside,
      line.same,
    )

-- A line of more than 15 words is refused, and nothing but the line was written.
pub runcmd_refused :
    (fuel : ℕ) (m : Mem) (p : ℕ) (cs names : List ℕ)
    → IsText m p cs
    → length cs < fuel
    → 15 < length (words cs)
    → (m' : Mem) × (runcmd fuel names m p ≡ some (m', refused))
      × ((q : ℕ) → (q < p) ⊎ (p + length cs ≤ q) → m' q ≡ m q)
unfolding runcmd lookup
runcmd_refused fuel m p cs names t f many =
    let (m', e, same) = parse_too_many fuel fuel m p cs [] t f f (omega arith) (omega arith) in
    (m', rw e refl, same)
