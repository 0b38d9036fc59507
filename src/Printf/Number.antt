-- ===== src/Printf/Number.antt =====
-- `printnum` prints a numeral of the number.
use jos.Base.{
  ℕ, zero, suc, ◌+◌, ◌-◌, ◌*◌, ◌/◌, ◌%◌, ◌^◌, ◌≤◌, ◌<◌, ◌≡◌, ◌≢◌, refl, sym, ◌∙◌, Option, some,
  List, [], ◌∷◌, ◌++◌, map, arith, dec_le, length, leb, true, false, get_or, replicate,
  length-append,
}
use mathlib.Core.List.{append_assoc}
use native.Mathlib.Nat.{
  div-add-mod', mod-lt, le-div_iff_mul-le, div-lt_iff_lt-mul, mod-eq_of_lt, mul-le-mul_left,
  pow-suc,
}
use jos.Printf.{printnum, hex_digit, put_behind}

-- The number that digits denote in a base, behind digits that denote `front`.
abbrev pub value : ℕ → ℕ → List ℕ → ℕ
value base front [] = front
value base front (d ∷ ds) = value base (front * base + d) ds

abbrev pub AllBelow : ℕ → List ℕ → Type 0
AllBelow base [] = 0 < base
AllBelow base (d ∷ ds) = (d < base) × AllBelow base ds

-- Padding and a numeral of `num` without leading zeros, `width` characters in all where the numeral
-- is not longer.
pub record Numeral (num base width padc : ℕ) (printed : Option (List ℕ)) : Type 0 where
  pub digits : List ℕ
  pub returns : printed ≡ some (replicate (width - length digits) padc ++ map hex_digit digits)
  pub denotes : value base 0 digits ≡ num
  pub below : AllBelow base digits
  pub one_digit : 0 < length digits
  pub no_zero : num ≢ 0 → get_or digits 0 0 ≢ 0

value-append :
    (base front : ℕ) (ds : List ℕ) (d : ℕ)
    → value base front (ds ++ (d ∷ [])) ≡ value base front ds * base + d
value-append base front [] d = refl
value-append base front (x ∷ ds) d = value-append base (front * base + x) ds d

AllBelow-append :
    (base : ℕ) (ds : List ℕ) (d : ℕ) → AllBelow base ds → d < base → AllBelow base (ds ++ (d ∷ []))
AllBelow-append base [] d all h = (h, all)
AllBelow-append base (x ∷ ds) d all h = (all.0, AllBelow-append base ds d all.1 h)

map-hex_digit-append :
    (ds : List ℕ) (d : ℕ) → map hex_digit (ds ++ (d ∷ [])) ≡ map hex_digit ds ++ (hex_digit d ∷ [])
map-hex_digit-append [] d = refl
map-hex_digit-append (x ∷ ds) d = rw (map-hex_digit-append ds d)

get_or-append_first :
    (ds : List ℕ) (d : ℕ) → 0 < length ds → get_or (ds ++ (d ∷ [])) 0 0 ≡ get_or ds 0 0
get_or-append_first [] d h = absurd (omega arith)
get_or-append_first (x ∷ ds) d h = refl

printnum_last :
    (fuel num base width padc : ℕ)
    → base ≤ 16
    → num < base
    → printnum (suc fuel) num base width padc
      ≡ some (replicate (width - 1) padc ++ (hex_digit (num % base) ∷ []))
unfolding printnum
printnum_last fuel num base width padc top h =
    let below : num % base < base = mod-lt num (omega arith) in
    let digit : leb (num % base) 16 ≡ true = ground arith in
    let last : leb base num ≡ false = ground arith in rw (printnum, last, digit) refl

printnum_more :
    (fuel num base width padc : ℕ)
    → 2 ≤ base
    → base ≤ 16
    → base ≤ num
    → printnum (suc fuel) num base width padc
      ≡ put_behind (printnum fuel (num / base) base (width - 1) padc) (hex_digit (num % base))
unfolding printnum
printnum_more fuel num base width padc two top h =
    let below : num % base < base = mod-lt num (omega arith) in
    let digit : leb (num % base) 16 ≡ true = ground arith in
    let more : leb base num ≡ true = ground arith in rw (printnum, more, digit) refl

quotient_pos : (num base : ℕ) → 2 ≤ base → base ≤ num → 1 ≤ num / base
quotient_pos num base two le = (le-div_iff_mul-le {k = base} (omega arith)).1 (omega arith)

quotient_half : (num base bound : ℕ) → 2 ≤ base → num < 2 * bound → num / base < bound
quotient_half num base bound two lt =
    (div-lt_iff_lt-mul {k = base} (omega arith)).1 (omega (arith, mul-le-mul_left bound two))

fuel_left : (fuel num : ℕ) → 2 ≤ num → num < 2 ^ suc fuel → 0 < fuel
fuel_left zero num two lt = absurd (omega arith)
fuel_left (suc fuel) num two lt = omega arith

-- A numeral of the quotient with the last digit behind it.
Numeral-more :
    (fuel num base width padc : ℕ)
    → 2 ≤ base
    → base ≤ 16
    → base ≤ num
    → Numeral (num / base) base (width - 1) padc (printnum fuel (num / base) base (width - 1) padc)
    → Numeral num base width padc (printnum (suc fuel) num base width padc)
Numeral-more fuel num base width padc two top le q =
    let last = num % base in
    let grown : width - 1 - length q.digits ≡ width - length (q.digits ++ (last ∷ [])) =
      omega (arith, length-append q.digits (last ∷ [])) in
    record {
      digits = q.digits ++ (last ∷ []);
      returns =
          printnum_more fuel num base width padc two top le
          ∙ rw (
            q.returns,
            map-hex_digit-append q.digits last,
            grown,
            append_assoc (replicate (width - length (q.digits ++ (last ∷ []))) padc)
                (map hex_digit q.digits) (hex_digit last ∷ []),
          );
      denotes = value-append base 0 q.digits last ∙ rw (q.denotes) (div-add-mod' num base);
      below = AllBelow-append base q.digits last q.below (mod-lt num (omega arith));
      one_digit = omega (arith, length-append q.digits (last ∷ []));
      no_zero = λ h e.
          q.no_zero (omega (arith, quotient_pos num base two le))
            (sym (get_or-append_first q.digits last q.one_digit) ∙ e);
    }

Numeral-last :
    (fuel num base width padc : ℕ)
    → base ≤ 16
    → num < base
    → Numeral num base width padc (printnum (suc fuel) num base width padc)
Numeral-last fuel num base width padc top lt =
    let whole : num % base ≡ num = mod-eq_of_lt lt in
    record {
      digits = num ∷ [];
      returns = printnum_last fuel num base width padc top lt ∙ rw whole refl;
      denotes = omega arith;
      below = (lt, omega arith);
      one_digit = omega arith;
      no_zero = λ h. h;
    }

-- For a base from 2 to 16 and a number below `2 ^ fuel`, `printnum` returns, and it has printed the
-- number's digits in that base, without leading zeros, behind as much padding as the width asks for.
pub printnum-Numeral :
    (fuel num base width padc : ℕ)
    → 2 ≤ base
    → base ≤ 16
    → num < 2 ^ fuel
    → 0 < fuel
    → Numeral num base width padc (printnum fuel num base width padc)
printnum-Numeral zero num base width padc two top lt some_fuel = absurd (omega arith)
printnum-Numeral (suc fuel) num base width padc two top lt some_fuel = elim (dec_le base num) [
  | yes le ↦ Numeral-more fuel num base width padc two top le (
      printnum-Numeral fuel (num / base) base (width - 1) padc two top
        (quotient_half num base (2 ^ fuel) two (omega (arith, pow-suc 2 fuel)))
        (fuel_left fuel num (omega arith) lt))
  | no gt ↦ Numeral-last fuel num base width padc top (omega arith)
]
