-- ===== src/Str/Find.antt =====
-- `strchr` and `strfind`.
use jos.Base.{
  ℕ, zero, suc, ◌+◌, ◌<◌, ◌≡◌, Option, none, some, List, [], ◌∷◌, arith, length, ◌==◌,
  if◌then◌else◌,
}
use mathlib.Core.Option
use jos.Memory.{Mem}
use jos.Memory.Text.{IsText}
use jos.Str.{strchr, strfind}

-- The position of the first `c`.
unfoldable pub index_of : ℕ → List ℕ → Option ℕ
index_of c [] = none
index_of c (x ∷ xs) = if x == c then some 0 else Option.map suc (index_of c xs)

abbrev pub at : ℕ → Option ℕ → Option ℕ
at s none = none
at s (some i) = some (s + i)

abbrev pub or_end : ℕ → Option ℕ → ℕ
or_end n none = n
or_end n (some i) = i

-- `strchr` returns the address of the first `c` in the string, and a null pointer where there is
-- none; the final 0 does not count.
pub strchr-index_of :
    (fuel : ℕ) (m : Mem) (s c : ℕ) (cs : List ℕ)
    → IsText m s cs
    → length cs < fuel
    → strchr fuel m s c ≡ some (at s (index_of c cs))
unfolding strchr index_of
strchr-index_of zero m s c cs t h = absurd (omega arith)
strchr-index_of (suc fuel) m s c [] t h = ground arith
strchr-index_of (suc fuel) m s c (x ∷ cs) t h = ground (arith, strchr-index_of fuel m (s + 1) c cs)

-- `strfind` returns the address of the first `c` in the string, and of its final 0 where there is
-- none.
pub strfind-index_of :
    (fuel : ℕ) (m : Mem) (s c : ℕ) (cs : List ℕ)
    → IsText m s cs
    → length cs < fuel
    → strfind fuel m s c ≡ some (s + or_end (length cs) (index_of c cs))
unfolding strfind index_of
strfind-index_of zero m s c cs t h = absurd (omega arith)
strfind-index_of (suc fuel) m s c [] t h = ground arith
strfind-index_of (suc fuel) m s c (x ∷ cs) t h =
    ground (arith, strfind-index_of fuel m (s + 1) c cs)
