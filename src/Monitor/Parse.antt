-- ===== src/Monitor/Parse.antt =====
-- `runcmd` splits a command line into its words.
pub mod Refused
use mathlib.Core.List.{append-nil, append_assoc}
use jos.Base.{
  ℕ, zero, suc, ◌+◌, ◌-◌, ◌≤◌, ◌<◌, ◌≡◌, ◌≢◌, ◌⊎◌, refl, sym, ap, ◌∙◌, true, false, inl, inr, ◌==◌,
  Option, some, List, [], ◌∷◌, ◌++◌, arith, length, length-append, dec_lt,
}
use mathlib.Core.Path.{subst}
use jos.Memory.{Mem}
use jos.Memory.Text.{IsText}
use jos.Monitor.{is_white, gobble, scan_past, maxargs, Parsed, arguments, too_many, parse}
use jos.Monitor.Words.{words, StartsWord, EndsWord, NoWhite, words-append, words_nil}
use jos.Monitor.Scan.{Gobbled, gobble-Gobbled, Passed, scan_past-Passed}

-- At the pointers stand the words, as strings.
abbrev pub AreTexts : Mem → List ℕ → List (List ℕ) → Type 0
AreTexts m [] [] = true ≡ true
AreTexts m [] (w ∷ ws) = true ≡ false
AreTexts m (p ∷ ps) [] = true ≡ false
AreTexts m (p ∷ ps) (w ∷ ws) = IsText m p w × AreTexts m ps ws

-- The pointers lie in `[lo, hi)`.
abbrev pub AreInside : ℕ → ℕ → List ℕ → Type 0
AreInside lo hi [] = true ≡ true
AreInside lo hi (p ∷ ps) = (lo ≤ p) × (p < hi) × AreInside lo hi ps

pub AreInside-mono :
    (lo hi lo' hi' : ℕ) (ps : List ℕ)
    → lo' ≤ lo
    → hi ≤ hi'
    → AreInside lo hi ps
    → AreInside lo' hi' ps
AreInside-mono lo hi lo' hi' [] h k i = refl
AreInside-mono lo hi lo' hi' (p ∷ ps) h k i =
    (omega (arith, i.0), omega (arith, i.1), AreInside-mono lo hi lo' hi' ps h k i.2)

-- The line was split: behind the arguments that there were, `argv` has the words of the line.
pub record Parses (m : Mem) (p : ℕ) (cs argv : List ℕ) (result : Option (Mem × Parsed))
    : Type 0 where
  pub after : Mem
  pub found : List ℕ
  pub returns : result ≡ some (after, arguments (argv ++ found))
  pub texts : AreTexts after found (words cs)
  pub inside : AreInside p (p + length cs) found
  pub same : (q : ℕ) → (q < p) ⊎ (p + length cs ≤ q) → after q ≡ m q
  pub ends : EndsWord cs → after p ≡ 0

IsText-prefix :
    (m m' : Mem) (p : ℕ) (w rest : List ℕ)
    → IsText m p (w ++ rest)
    → ((q : ℕ) → p ≤ q → q < p + length w → m' q ≡ m q)
    → m' (p + length w) ≡ 0
    → IsText m' p w
IsText-prefix m m' p [] rest t same ends = ap m' (omega arith) ∙ ends
IsText-prefix m m' p (c ∷ w) rest t same ends = (
  same p (omega arith) (omega arith) ∙ t.0,
  t.1,
  IsText-prefix m m' (p + 1) w rest t.2 (λ q h k. same q (omega arith) (omega arith))
      (ap m' (omega arith) ∙ ends),
)

pub first_word :
    (c : ℕ) (cs w rest : List ℕ)
    → c ∷ cs ≡ w ++ rest
    → NoWhite w
    → EndsWord rest
    → is_white c ≡ false
    → (words (c ∷ cs) ≡ w ∷ words rest) × (0 < length w)
first_word c cs [] rest parts black ends starts =
    let e : EndsWord (c ∷ cs) = subst EndsWord (sym parts) ends in cc
first_word c cs (x ∷ w) rest parts black ends starts =
    (ap words parts ∙ words-append x w rest black ends, omega arith)

pub List-cases : (xs : List ℕ) → (xs ≡ []) ⊎ ((c : ℕ) × (cs : List ℕ) × (xs ≡ c ∷ cs))
List-cases [] = inl refl
List-cases (c ∷ cs) = inr (c, cs, refl)

module _ (fuel rounds : ℕ) (m m' : Mem) (p q : ℕ) (argv : List ℕ)
    (gobbled : gobble fuel m p ≡ some (m', q)) where
  parse_end : m' q ≡ 0 → parse fuel (suc rounds) m p argv ≡ some (m', arguments argv)
  unfolding parse
  parse_end e = let t : (m' q == 0) ≡ true = ground arith in rw (parse, gobbled, t) refl

  pub parse_full :
      m' q ≢ 0 → length argv ≡ 15 → parse fuel (suc rounds) m p argv ≡ some (m', too_many)
  unfolding parse
  parse_full e full =
      let t : (m' q == 0) ≡ false = ground arith in
      let u : (length argv == maxargs - 1) ≡ true = ground arith in rw (parse, gobbled, t, u) refl

  pub parse_word :
      (next : ℕ)
      → m' q ≢ 0
      → length argv < 15
      → scan_past fuel m' q ≡ some next
      → parse fuel (suc rounds) m p argv ≡ parse fuel rounds m' next (argv ++ (q ∷ []))
  unfolding parse
  parse_word next e room passed =
      let t : (m' q == 0) ≡ false = ground arith in
      let u : (length argv == maxargs - 1) ≡ false = ground arith in
      rw (parse, gobbled, t, u, passed) refl

-- One round that finds a word, and the rest of the run.
Parses-word :
    (rounds fuel : ℕ) (m : Mem) (p : ℕ) (cs argv : List ℕ) (g : Gobbled m p cs (gobble fuel m p))
    (c : ℕ) (cs' : List ℕ)
    → g.rest ≡ c ∷ cs'
    → length argv < 15
    → (s : Passed g.after (p + g.n) (c ∷ cs') (scan_past fuel g.after (p + g.n)))
    → Parses g.after
        (p + g.n + length s.w)
        s.rest
        (argv ++ ((p + g.n) ∷ []))
        (parse fuel rounds g.after (p + g.n + length s.w) (argv ++ ((p + g.n) ∷ [])))
    → Parses m p cs argv (parse fuel (suc rounds) m p argv)
Parses-word rounds fuel m p cs argv g c cs' more room s run =
    let at = p + g.n in
    let t : IsText g.after at (c ∷ cs') = subst (IsText g.after at) more g.text in
    let starts : is_white c ≡ false = subst StartsWord more g.starts in
    let (split, nonempty) = first_word c cs' s.w s.rest s.parts s.black s.ends starts in
    let size : length (c ∷ cs') ≡ length s.w + length s.rest =
      ap length s.parts ∙ length-append s.w s.rest in
    let whole : length cs ≡ g.n + length (c ∷ cs') =
      g.size ∙ ap (λ (u : List ℕ). g.n + length u) more in
    record {
      after = run.after;
      found = at ∷ run.found;
      returns =
          parse_word fuel rounds m g.after p at argv g.returns (at + length s.w)
            (omega (arith, t.0, t.1)) room s.returns
          ∙ run.returns
          ∙ rw (append_assoc argv (at ∷ []) run.found) refl;
      texts =
          rw (g.same_words, more, split)
            (
              IsText-prefix g.after run.after at s.w s.rest (subst (IsText g.after at) s.parts t)
                  (λ q h k. run.same q (omega arith)) (run.ends s.ends),
              run.texts,
            );
      inside = (
        omega arith,
        omega (arith, size, whole, nonempty),
        AreInside-mono (at + length s.w) (at + length s.w + length s.rest) p (p + length cs)
            run.found (omega arith) (omega (arith, size, whole)) run.inside,
      );
      same = λ q h. run.same q (omega (arith, size, whole)) ∙ g.same q (omega (arith, size, whole));
      ends = λ e. run.same p (omega (arith, nonempty)) ∙ g.ends e;
    }

pub parse-Parses :
    (rounds fuel : ℕ) (m : Mem) (p : ℕ) (cs argv : List ℕ)
    → IsText m p cs
    → length cs < fuel
    → length cs < rounds
    → length argv + length (words cs) ≤ 15
    → Parses m p cs argv (parse fuel rounds m p argv)
parse-Parses zero fuel m p cs argv t f r room = absurd (omega arith)
parse-Parses (suc rounds) fuel m p cs argv t f r room =
    let g = gobble-Gobbled fuel m p cs t f in
    elim (List-cases g.rest) [
      | inl none ↦
          let last : g.after (p + g.n) ≡ 0 = subst (IsText g.after (p + g.n)) none g.text in
          record {
            after = g.after;
            found = [];
            returns =
                parse_end fuel rounds m g.after p (p + g.n) argv g.returns last
                ∙ rw (append-nil argv) refl;
            texts = rw (g.same_words, none, words_nil) refl;
            inside = refl;
            same = λ q h. g.same q (omega (arith, g.size));
            ends = g.ends;
          }
      | inr (c, cs', more) ↦
          let at = p + g.n in
          let t : IsText g.after at (c ∷ cs') = subst (IsText g.after at) more g.text in
          let whole : length cs ≡ g.n + length (c ∷ cs') =
            g.size ∙ ap (λ (u : List ℕ). g.n + length u) more in
          let s = scan_past-Passed fuel g.after at (c ∷ cs') t (omega (arith, whole)) in
          let starts : is_white c ≡ false = subst StartsWord more g.starts in
          let (split, nonempty) = first_word c cs' s.w s.rest s.parts s.black s.ends starts in
          let size : length (c ∷ cs') ≡ length s.w + length s.rest =
            ap length s.parts ∙ length-append s.w s.rest in
          let count : length (words cs) ≡ suc (length (words s.rest)) =
            ap length g.same_words ∙ ap (λ (u : List ℕ). length (words u)) more ∙ ap length split in
          Parses-word rounds fuel m p cs argv g c cs' more (omega (arith, count)) s (
            parse-Parses rounds fuel g.after (at + length s.w) s.rest (argv ++ (at ∷ [])) s.text
              (omega (arith, whole, size)) (omega (arith, whole, size))
              (omega (arith, count, length-append argv (at ∷ []))))
    ]
