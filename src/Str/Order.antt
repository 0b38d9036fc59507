-- ===== src/Str/Order.antt =====
-- `strcmp` and `strncmp` order strings as lists of bytes.
use jos.Base.{
  ℕ, zero, suc, ◌+◌, ◌<◌, ◌≡◌, ◌≢◌, ◌↔◌, refl, some, List, [], ◌∷◌, arith, length, take, ◌==◌,
  if◌then◌else◌,
}
use jos.Base.Int.{ℤ, pos, sub_ℕ}
use jos.Memory.{Mem}
use jos.Memory.Text.{IsText}
use jos.Str.{strcmp, strncmp}

-- The difference of the first characters that differ, the end of a string being a 0.
unfoldable pub difference : List ℕ → List ℕ → ℤ
difference [] [] = pos 0
difference [] (y ∷ ys) = sub_ℕ 0 y
difference (x ∷ xs) [] = sub_ℕ x 0
difference (x ∷ xs) (y ∷ ys) = if x == y then difference xs ys else sub_ℕ x y

-- `strcmp` returns it.
pub strcmp-difference :
    (fuel : ℕ) (m : Mem) (p q : ℕ) (xs ys : List ℕ)
    → IsText m p xs
    → IsText m q ys
    → length xs < fuel
    → strcmp fuel m p q ≡ some (difference xs ys)
unfolding strcmp difference
strcmp-difference zero m p q xs ys t u h = absurd (omega arith)
strcmp-difference (suc fuel) m p q [] [] t u h = ground arith
strcmp-difference (suc fuel) m p q [] (y ∷ ys) t u h = ground arith
strcmp-difference (suc fuel) m p q (x ∷ xs) [] t u h = ground arith
strcmp-difference (suc fuel) m p q (x ∷ xs) (y ∷ ys) t u h =
    ground (arith, strcmp-difference fuel m (p + 1) (q + 1) xs ys)

-- `strncmp` returns that of the first `n` characters of each.
pub strncmp-difference :
    (m : Mem) (p q n : ℕ) (xs ys : List ℕ)
    → IsText m p xs
    → IsText m q ys
    → strncmp m p q n ≡ difference (take n xs) (take n ys)
unfolding strncmp difference
strncmp-difference m p q zero xs ys t u = refl
strncmp-difference m p q (suc n) [] [] t u = ground arith
strncmp-difference m p q (suc n) [] (y ∷ ys) t u = ground arith
strncmp-difference m p q (suc n) (x ∷ xs) [] t u = ground arith
strncmp-difference m p q (suc n) (x ∷ xs) (y ∷ ys) t u =
    ground (arith, strncmp-difference m (p + 1) (q + 1) n xs ys)

-- All characters of a string are not 0.
abbrev pub NonZero : List ℕ → Type 0
NonZero [] = Unit
NonZero (x ∷ xs) = (x ≢ 0) × NonZero xs

pub NonZero-text : (m : Mem) (p : ℕ) (xs : List ℕ) → IsText m p xs → NonZero xs
NonZero-text m p [] t = tt
NonZero-text m p (x ∷ xs) t = (t.1, NonZero-text m (p + 1) xs t.2)

pub eq_of_difference :
    (xs ys : List ℕ) → NonZero xs → NonZero ys → difference xs ys ≡ pos 0 → xs ≡ ys
unfolding difference
eq_of_difference [] [] h k e = refl
eq_of_difference [] (y ∷ ys) h k e = ground arith
eq_of_difference (x ∷ xs) [] h k e = ground arith
eq_of_difference (x ∷ xs) (y ∷ ys) h k e = ground (arith, eq_of_difference xs ys)

pub difference_self : (xs : List ℕ) → difference xs xs ≡ pos 0
unfolding difference
difference_self [] = refl
difference_self (x ∷ xs) = ground (arith, difference_self xs)

-- `strcmp` returns, and it returns 0 exactly for equal strings.
pub strcmp_eq :
    (fuel : ℕ) (m : Mem) (p q : ℕ) (xs ys : List ℕ)
    → IsText m p xs
    → IsText m q ys
    → length xs < fuel
    → (d : ℤ) × (strcmp fuel m p q ≡ some d) × ((d ≡ pos 0) ↔ (xs ≡ ys))
strcmp_eq fuel m p q xs ys t u h = (
  difference xs ys,
  strcmp-difference fuel m p q xs ys t u h,
  (
    eq_of_difference xs ys (NonZero-text m p xs t) (NonZero-text m q ys u),
    λ e. rw e (difference_self ys),
  ),
)
