-- ===== src/Memory/Text.antt =====
-- Strings in memory.
use jos.Base.{ℕ, suc, ◌+◌, ◌≤◌, ◌<◌, ◌≡◌, ◌≢◌, ◌∙◌, List, [], ◌∷◌, ◌++◌, arith, length}
use jos.Memory.{Mem}

-- From `p` on stand the characters `cs`, none of them 0, and then a 0.
abbrev pub IsText : Mem → ℕ → List ℕ → Type 0
IsText m p [] = m p ≡ 0
IsText m p (c ∷ cs) = (m p ≡ c) × (c ≢ 0) × IsText m (p + 1) cs

-- A string keeps its characters where memory keeps the bytes of the string.
pub IsText-frame :
    (m m' : Mem) (p : ℕ) (cs : List ℕ)
    → ((q : ℕ) → p ≤ q → q < p + length cs + 1 → m' q ≡ m q)
    → IsText m p cs
    → IsText m' p cs
IsText-frame m m' p [] same t = same p (omega arith) (omega arith) ∙ t
IsText-frame m m' p (c ∷ cs) same t = (
  same p (omega arith) (omega arith) ∙ t.0,
  t.1,
  IsText-frame m m' (p + 1) cs (λ q h k. same q (omega arith) (omega arith)) t.2,
)

-- Characters that are not 0, with a string behind them, make a longer string.
pub IsText-append :
    (m : Mem) (p : ℕ) (xs ys : List ℕ)
    → IsText m p xs
    → (m' : Mem) → ((q : ℕ) → p ≤ q → q < p + length xs → m' q ≡ m q)
    → IsText m' (p + length xs) ys
    → IsText m' p (xs ++ ys)
IsText-append m p [] ys t m' same u = let e : p + 0 ≡ p = omega arith in rw e at u
IsText-append m p (x ∷ xs) ys t m' same u =
    let e : p + suc (length xs) ≡ p + 1 + length xs = omega arith in
    (
      same p (omega arith) (omega arith) ∙ t.0,
      t.1,
      IsText-append m (p + 1) xs ys t.2 m' (λ q h k. same q (omega arith) (omega arith))
          (rw e at u),
    )
