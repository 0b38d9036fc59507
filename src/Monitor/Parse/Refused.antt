-- ===== src/Monitor/Parse/Refused.antt =====
-- `runcmd` refuses a line of too many words.
use jos.Base.{
  ℕ, zero, suc, ◌+◌, ◌≤◌, ◌<◌, ◌≡◌, ◌≢◌, ◌⊎◌, ap, ◌∙◌, inl, inr, some, List, [], ◌∷◌, ◌++◌, arith,
  length, length-append, dec_lt,
}
use mathlib.Core.Path.{subst}
use jos.Memory.{Mem}
use jos.Memory.Text.{IsText}
use jos.Monitor.{too_many, parse}
use jos.Monitor.Words.{words, StartsWord, words_nil}
use jos.Monitor.Scan.{gobble-Gobbled, scan_past-Passed}
use jos.Monitor.Parse.{first_word, List-cases, parse_full, parse_word}

-- With more than 15 arguments the line is refused, and nothing but the line was written.
pub parse_too_many :
    (rounds fuel : ℕ) (m : Mem) (p : ℕ) (cs argv : List ℕ)
    → IsText m p cs
    → length cs < fuel
    → length cs < rounds
    → length argv ≤ 15
    → 15 < length argv + length (words cs)
    → (m' : Mem) × (parse fuel rounds m p argv ≡ some (m', too_many))
      × ((q : ℕ) → (q < p) ⊎ (p + length cs ≤ q) → m' q ≡ m q)
parse_too_many zero fuel m p cs argv t f r small many = absurd (omega arith)
parse_too_many (suc rounds) fuel m p cs argv t f r small many =
    let g = gobble-Gobbled fuel m p cs t f in
    let at = p + g.n in
    elim (List-cases g.rest) [
      | inl none ↦
          let count : length (words cs) ≡ 0 =
            ap length (g.same_words ∙ ap words none ∙ words_nil) in
          absurd (omega (arith, count))
      | inr (c, cs', more) ↦
          let t : IsText g.after at (c ∷ cs') = subst (IsText g.after at) more g.text in
          let whole : length cs ≡ g.n + length (c ∷ cs') =
            g.size ∙ ap (λ (u : List ℕ). g.n + length u) more in
          let s = scan_past-Passed fuel g.after at (c ∷ cs') t (omega (arith, whole)) in
          let (split, nonempty) =
            first_word c cs' s.w s.rest s.parts s.black s.ends (subst StartsWord more g.starts) in
          let size : length (c ∷ cs') ≡ length s.w + length s.rest =
            ap length s.parts ∙ length-append s.w s.rest in
          let count : length (words cs) ≡ suc (length (words s.rest)) =
            ap length (g.same_words ∙ ap words more ∙ split) in
          let there : g.after at ≢ 0 = omega (arith, t.0, t.1) in
          elim (dec_lt (length argv) 15) [
            | no full ↦ (
              g.after,
              parse_full fuel rounds m g.after p at argv g.returns there (omega arith),
              λ q h. g.same q (omega (arith, g.size)),
            )
            | yes room ↦
                let (m', refused, same) =
                  parse_too_many rounds fuel g.after (at + length s.w) s.rest (argv ++ (at ∷ []))
                    s.text (omega (arith, whole, size)) (omega (arith, whole, size))
                    (omega (arith, length-append argv (at ∷ [])))
                    (omega (arith, count, length-append argv (at ∷ []))) in
                (
                  m',
                  parse_word fuel rounds m g.after p at argv g.returns (at + length s.w) there room
                        s.returns
                      ∙ refused,
                  λ q h.
                      same q (omega (arith, size, whole)) ∙ g.same q (omega (arith, size, whole)),
                )
          ]
    ]
