-- ===== src/Strtol/Digits.antt =====
-- The digits that `strtol` reads.
use jos.Base.{
  ℕ, zero, suc, ◌+◌, ◌*◌, ◌≤◌, ◌<◌, ◌^◌, ◌≡◌, refl, ◌∙◌, ap, true, false, Option, none, some, List,
  [], ◌∷◌, map, arith, length, ◌==◌, leb, ==_iff,
}
use native.Mathlib.Nat.{mul-le-mul_left}
use jos.Base.Bits.{all_below, all_below_sound}
use jos.Types.{u32}
use jos.Memory.{Mem}
use jos.Memory.Text.{IsText}
use jos.Printf.{hex_digit}
use jos.Printf.Number.{value, AllBelow}
use jos.Strtol.{digit_of, read_digits}

abbrev or_none : Option ℕ → ℕ
or_none none = 99
or_none (some d) = d

hex_digit_table : all_below 16 (λ d. or_none (digit_of (hex_digit d)) == d) ≡ true
unfolding all_below digit_of
hex_digit_table = refl

or_none_iff : (o : Option ℕ) (d : ℕ) → d < 16 → or_none o ≡ d → o ≡ some d
or_none_iff none d h e = absurd (omega arith)
or_none_iff (some x) d h e = ap some e

-- A digit that is printed is read back.
pub digit_of-hex_digit : (d : ℕ) → d < 16 → digit_of (hex_digit d) ≡ some d
digit_of-hex_digit d h =
    or_none_iff (digit_of (hex_digit d)) d h
      ((==_iff _ _).0 (all_below_sound 16 _ d hex_digit_table h))

pub le-value : (base front : ℕ) (ds : List ℕ) → 1 ≤ base → front ≤ value base front ds
le-value base front [] h = omega arith
le-value base front (d ∷ ds) h =
    omega (arith, le-value base (front * base + d) ds h, mul-le-mul_left front h)

module _ (fuel : ℕ) (m : Mem) (base s val : ℕ) where
  read_digits_stop : digit_of (m s) ≡ none → read_digits (suc fuel) m base s val ≡ some (s, val)
  unfolding read_digits
  read_digits_stop e = rw (read_digits, e) refl

  read_digits_more :
      (dig : ℕ)
      → digit_of (m s) ≡ some dig
      → dig < base
      → read_digits (suc fuel) m base s val
        ≡ read_digits fuel m base (s + 1) (u32 (val * base + dig))
  unfolding read_digits
  read_digits_more dig e lt =
      let t : leb base dig ≡ false = ground arith in rw (read_digits, e, t) refl

digit_of_end : digit_of 0 ≡ none
unfolding digit_of
digit_of_end = refl

pub read_digits-value :
    (fuel : ℕ) (m : Mem) (base s val : ℕ) (ds : List ℕ)
    → IsText m s (map hex_digit ds)
    → AllBelow base ds
    → 1 ≤ base
    → base ≤ 16
    → value base val ds < 2 ^ 32
    → length ds < fuel
    → read_digits fuel m base s val ≡ some (s + length ds, value base val ds)
read_digits-value zero m base s val ds t all one le small f = absurd (omega arith)
read_digits-value (suc fuel) m base s val [] t all one le small f =
    let here : s + 0 ≡ s = omega arith in
    read_digits_stop fuel m base s val (ap digit_of t ∙ digit_of_end) ∙ rw here refl
read_digits-value (suc fuel) m base s val (d ∷ ds) t all one le small f =
    let next = val * base + d in
    let whole : u32 next ≡ next = omega (arith, le-value base next ds one) in
    let there : s + 1 + length ds ≡ s + suc (length ds) = omega arith in
    let first =
      read_digits_more fuel m base s val d (ap digit_of t.0 ∙ digit_of-hex_digit d (omega arith))
        all.0 in
    let rest = read_digits-value fuel m base (s + 1) next ds t.2 all.1 one le small (omega arith) in
    rw (first, whole, rest, there) refl
