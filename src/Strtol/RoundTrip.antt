-- ===== src/Strtol/RoundTrip.antt =====
-- `strtol` reads back what `printnum` prints.
use jos.Base.{
  ℕ, zero, suc, ◌+◌, ◌-◌, ◌≤◌, ◌<◌, ◌^◌, ◌≡◌, refl, sym, ◌∙◌, ap, true, false, Bool, not, ◌&&◌,
  ◌||◌, some, List, [], ◌∷◌, ◌++◌, map, arith, length, ◌==◌, if◌then◌else◌, replicate, length-map,
}
use mathlib.Core.Option.{some_inj}
use jos.Base.Bits.{all_below, all_below_sound}
use jos.Types.{sub32}
use jos.Memory.{Mem}
use jos.Memory.Text.{IsText}
use jos.Printf.{printnum, hex_digit}
use jos.Printf.Number.{value, AllBelow, printnum-Numeral}
use jos.Strtol.{skip_blanks, read_sign, read_prefix, read_digits, strtol}
use jos.Strtol.Digits.{read_digits-value}

abbrev is_plain : ℕ → Bool
is_plain c =
    not (c == b' ') && not (c == b'\t') && not (c == b'+') && not (c == b'-') && not (c == b'x')

plain_table : all_below 16 (λ d. is_plain (hex_digit d)) ≡ true
unfolding all_below
plain_table = refl

hex_digit_plain : (d : ℕ) → d < 16 → is_plain (hex_digit d) ≡ true
hex_digit_plain d h = all_below_sound 16 _ d plain_table h

abbrev is_blank : ℕ → Bool
is_blank c = c == b' ' || c == b'\t'

skip_blanks_stop :
    (fuel : ℕ) (m : Mem) (s : ℕ) → is_blank (m s) ≡ false → skip_blanks (suc fuel) m s ≡ some s
unfolding skip_blanks
skip_blanks_stop fuel m s t = ground arith

skip_blanks_more :
    (fuel : ℕ) (m : Mem) (s : ℕ)
    → m s ≡ b' '
    → skip_blanks (suc fuel) m s ≡ skip_blanks fuel m (s + 1)
unfolding skip_blanks
skip_blanks_more fuel m s e = ground arith

skip_blanks-replicate :
    (k fuel : ℕ) (m : Mem) (s : ℕ) (cs : List ℕ)
    → IsText m s (replicate k b' ' ++ cs)
    → is_blank (m (s + k)) ≡ false
    → k < fuel
    → skip_blanks fuel m s ≡ some (s + k)
skip_blanks-replicate k zero m s cs t plain f = absurd (omega arith)
skip_blanks-replicate zero (suc fuel) m s cs t plain f =
    let e : s + 0 ≡ s = omega arith in
    rw e (skip_blanks_stop fuel m s (ap (λ q. is_blank (m q)) (sym e) ∙ plain))
skip_blanks-replicate (suc k) (suc fuel) m s cs t plain f =
    let e : s + 1 + k ≡ s + suc k = omega arith in
    let rest =
      skip_blanks-replicate k fuel m (s + 1) cs t.2 (ap (λ q. is_blank (m q)) e ∙ plain)
        (omega arith) in
    rw (skip_blanks_more fuel m s t.0, rest, e) refl

IsText_behind :
    (k : ℕ) (m : Mem) (s c : ℕ) (cs : List ℕ)
    → IsText m s (replicate k c ++ cs)
    → IsText m (s + k) cs
IsText_behind zero m s c cs t = let e : s + 0 ≡ s = omega arith in rw e t
IsText_behind (suc k) m s c cs t =
    let e : s + suc k ≡ s + 1 + k = omega arith in rw e (IsText_behind k m (s + 1) c cs t.2)

read_sign_none : (m : Mem) (s : ℕ) → is_plain (m s) ≡ true → read_sign m s ≡ (s, false)
unfolding read_sign
read_sign_none m s t = ground arith

read_sign_minus : (m : Mem) (s : ℕ) → m s ≡ b'-' → read_sign m s ≡ (s + 1, true)
unfolding read_sign
read_sign_minus m s t = ground arith

read_prefix_none :
    (m : Mem) (s base : ℕ)
    → 0 < base
    → (m (s + 1) == b'x') ≡ false
    → read_prefix m s base ≡ (s, base)
unfolding read_prefix
read_prefix_none m s base h t = ground arith

second_plain :
    (m : Mem) (s d : ℕ) (ds : List ℕ) (base : ℕ)
    → base ≤ 16
    → AllBelow base ds
    → IsText m s (map hex_digit (d ∷ ds))
    → (m (s + 1) == b'x') ≡ false
second_plain m s d [] base le all t = ground arith
second_plain m s d (e ∷ ds) base le all t =
    let plain = hex_digit_plain e (omega arith) in let here = t.2.0 in ground arith

-- The numeral itself, from `p` on.
numeral_run :
    (fuel : ℕ) (m : Mem) (p base : ℕ) (ds : List ℕ)
    → 2 ≤ base
    → base ≤ 16
    → AllBelow base ds
    → 0 < length ds
    → value base 0 ds < 2 ^ 32
    → length ds < fuel
    → IsText m p (map hex_digit ds)
    → (read_prefix m p base ≡ (p, base))
      × (is_plain (m p) ≡ true)
      × (read_digits fuel m base p 0 ≡ some (p + length ds, value base 0 ds))
numeral_run fuel m p base [] two le all one small f t = absurd (omega arith)
numeral_run fuel m p base (d ∷ ds) two le all one small f t = (
  read_prefix_none m p base (omega arith) (second_plain m p d ds base le all.1 t),
  ap is_plain t.0 ∙ hex_digit_plain d (omega (arith, all.0)),
  read_digits-value fuel m base p 0 (d ∷ ds) t all (omega arith) le small f,
)

abbrev pub minus : Bool → List ℕ
minus true = b'-' ∷ []
minus false = []

-- What stands behind the blanks: a sign, and the numeral.
signed_run :
    (m : Mem) (p : ℕ) (negative : Bool) (digits : List ℕ)
    → IsText m p (minus negative ++ digits)
    → is_plain (m (p + length (minus negative))) ≡ true
    → (is_blank (m p) ≡ false) × (read_sign m p ≡ (p + length (minus negative), negative))
signed_run m p true digits t plain = let there = t.0 in (ground arith, read_sign_minus m p t.0)
signed_run m p false digits t plain =
    let e : p + 0 ≡ p = omega arith in
    let here : is_plain (m p) ≡ true = ap (λ q. is_plain (m q)) (sym e) ∙ plain in
    (ground arith, read_sign_none m p here ∙ rw e refl)

IsText_behind_sign :
    (m : Mem) (p : ℕ) (negative : Bool) (digits : List ℕ)
    → IsText m p (minus negative ++ digits)
    → IsText m (p + length (minus negative)) digits
IsText_behind_sign m p true digits t = t.2
IsText_behind_sign m p false digits t = let e : p + 0 ≡ p = omega arith in rw e t

-- `strtol` on blanks, a sign and the numeral of a number.
strtol_numeral :
    (fuel : ℕ) (m : Mem) (s blanks base : ℕ) (negative : Bool) (ds : List ℕ)
    → 2 ≤ base
    → base ≤ 16
    → AllBelow base ds
    → 0 < length ds
    → value base 0 ds < 2 ^ 32
    → blanks + length ds < fuel
    → IsText m s (replicate blanks b' ' ++ (minus negative ++ map hex_digit ds))
    → strtol fuel m s base
      ≡ some (
        s + blanks + length (minus negative) + length ds,
        if negative then sub32 0 (value base 0 ds) else value base 0 ds,
      )
unfolding strtol
strtol_numeral fuel m s blanks base negative ds two le all one small f t =
    let p = s + blanks in
    let signed = IsText_behind blanks m s b' ' (minus negative ++ map hex_digit ds) t in
    let there = p + length (minus negative) in
    let run =
      numeral_run fuel m there base ds two le all one small (omega arith)
        (IsText_behind_sign m p negative (map hex_digit ds) signed) in
    let sign = signed_run m p negative (map hex_digit ds) signed run.1 in
    let skip =
      skip_blanks-replicate blanks fuel m s (minus negative ++ map hex_digit ds) t sign.0
        (omega arith) in
    rw (skip, sign.1, run.0, run.2) refl

-- Where the digits that `printnum` prints of a number below 2 ^ 32, without padding and in a base
-- from 2 to 16, stand in memory behind blanks and an optional minus sign, as a string, `strtol` in
-- that base returns the end of the string, and the number or its negative as a 32-bit word, once
-- the fuel exceeds the number of blanks and digits.
pub strtol-printnum :
    (num base : ℕ)
    → 2 ≤ base
    → base ≤ 16
    → num < 2 ^ 32
    → (digits : List ℕ) → printnum 64 num base 0 b' ' ≡ some digits
    → (fuel : ℕ) (m : Mem) (s blanks : ℕ) (negative : Bool) → blanks + length digits < fuel
    → IsText m s (replicate blanks b' ' ++ (minus negative ++ digits))
    → strtol fuel m s base
      ≡ some (
        s + blanks + length (minus negative) + length digits,
        if negative then sub32 0 num else num,
      )
strtol-printnum num base two le small digits printed fuel m s blanks negative f t =
    let q = printnum-Numeral 64 num base 0 b' ' two (omega arith) (omega arith) (omega arith) in
    let none_left : 0 - length q.digits ≡ 0 = omega arith in
    let same : digits ≡ map hex_digit q.digits = some_inj.0 (
      sym printed
      ∙ q.returns
      ∙ ap (λ k. some (replicate k b' ' ++ map hex_digit q.digits)) none_left) in
    let len : length digits ≡ length q.digits = ap length same ∙ length-map q.digits hex_digit in
    let run =
      strtol_numeral fuel m s blanks base negative q.digits two le q.below q.one_digit
        (rw (q.denotes) small) (omega arith) (rw same at t) in
    rw len (rw (q.denotes) at run)
