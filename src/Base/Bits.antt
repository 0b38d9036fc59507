-- ===== src/Base/Bits.antt =====
-- `|` of disjoint fields and `&` with a low mask as arithmetic, and facts over one byte by
-- evaluating every value.
mod Step
use Step.{bit_or_step, bit_and_step}
use Prim.Native.Nat.{ℕ, zero, suc, ◌+◌, ◌-◌, ◌*◌, ◌/◌, ◌%◌, ◌^◌, ◌≤◌, ◌<◌, bit_and, bit_or}
use mathlib.Core.Path.{◌≡◌, refl, ap}
use mathlib.Core.Bool.{Bool, true, ◌&&◌}
use native.Mathlib.Nat.{pow-suc, one-le-pow}
use native.Mathlib.Omega.{arith}

infixl 75 ◌<<<◌ ◌>>>◌
abbrev pub ◌<<<◌ : ℕ → ℕ → ℕ
x <<< k = x * 2 ^ k

abbrev pub ◌>>>◌ : ℕ → ℕ → ℕ
x >>> k = x / 2 ^ k

-- Over a small range, every value by evaluation.
unfoldable pub all_below : ℕ → (ℕ → Bool) → Bool
all_below zero p = true
all_below (suc n) p = p n && all_below n p

pub all_below_sound : (n : ℕ) (p : ℕ → Bool) (x : ℕ) → all_below n p ≡ true → x < n → p x ≡ true
unfolding all_below
all_below_sound (suc n) p x every lt = ground (arith, all_below_sound n p x)
all_below_sound zero p x every lt = absurd (omega arith)

-- Both operations against no digits at all; `size` bounds the number, which is halved.
zero_digits : (size x : ℕ) → x ≤ size → (bit_and x 0 ≡ 0) × (bit_or x 0 ≡ x)
zero_digits size zero le = (refl, refl)
zero_digits zero (suc x) le = absurd (omega arith)
zero_digits (suc size) (suc x) le =
    let halves = zero_digits size (suc x / 2) (omega arith) in
    (
      omega (arith, bit_and_step (suc x) 0, halves.0),
      omega (arith, bit_or_step (suc x) 0, halves.1),
    )

pub bit_or-zero : (a : ℕ) → bit_or a 0 ≡ a
bit_or-zero a = (zero_digits a a (omega arith)).1

pub bit_and-zero : (a : ℕ) → bit_and a 0 ≡ 0
bit_and-zero a = (zero_digits a a (omega arith)).0

double_field : (q k : ℕ) → q * 2 ^ suc k ≡ 2 * (q * 2 ^ k)
double_field q k = omega (arith, ap (λ (t : ℕ). q * t) (pow-suc 2 k))

-- `(high << w) | low` is a sum where `low` fits `w` bits.
pub bit_or_fields : (w high low : ℕ) → low < 2 ^ w → bit_or (high * 2 ^ w) low ≡ high * 2 ^ w + low
bit_or_fields (suc w) high low fits =
    let rest = bit_or_fields w high (low / 2) (omega arith) in
    ground (arith, double_field high w, bit_or_step (high * 2 ^ suc w) low, rest)
bit_or_fields zero high low fits = ground (arith, bit_or-zero high)

low_field : (w low high : ℕ) → low < 2 ^ w → bit_and (high * 2 ^ w + low) (2 ^ w - 1) ≡ low
low_field (suc w) low high fits =
    let rest = low_field w (low / 2) high (omega arith) in
    let here = bit_and_step (high * 2 ^ suc w + low) (2 ^ suc w - 1) in
    ground (arith, pow-suc 2 w, double_field high w, here, rest)
low_field zero low high fits = ground (arith, bit_and-zero (high * 1 + low))

-- `a & (2^w - 1)` is the remainder by `2 ^ w`.
pub bit_and_mask : (w a : ℕ) → bit_and a (2 ^ w - 1) ≡ a % 2 ^ w
bit_and_mask w a = ground (arith, low_field w (a % 2 ^ w) (a / 2 ^ w), one-le-pow w 2)

bit_and_upper_fields :
    (k q r m : ℕ) → r < 2 ^ k → bit_and (q * 2 ^ k + r) (m * 2 ^ k) ≡ bit_and q m * 2 ^ k
bit_and_upper_fields zero q r m fits =
    let e : q * 2 ^ 0 + r ≡ q = omega arith in
    let f : m * 2 ^ 0 ≡ m = omega arith in rw (e, f) (omega arith)
bit_and_upper_fields (suc k) q r m fits = ground (
  arith,
  bit_and_step (q * 2 ^ suc k + r) (m * 2 ^ suc k),
  double_field q k,
  double_field m k,
  double_field (bit_and q m) k,
  pow-suc 2 k,
  bit_and_upper_fields k q (r / 2) m (omega (arith, pow-suc 2 k)),
)

-- `a & (m << k)` looks at the digits of `a` from the `k`-th on.
pub bit_and_upper : (k m a : ℕ) → bit_and a (m * 2 ^ k) ≡ bit_and (a / 2 ^ k) m * 2 ^ k
bit_and_upper k m a =
    ground (arith, one-le-pow k 2, bit_and_upper_fields k (a / 2 ^ k) (a % 2 ^ k) m)

-- `a & (((1 << j) - 1) << k)` is the field of `j` digits from the `k`-th on, in place.
pub bit_and_field : (k j a : ℕ) → bit_and a ((2 ^ j - 1) * 2 ^ k) ≡ a / 2 ^ k % 2 ^ j * 2 ^ k
bit_and_field k j a = rw (bit_and_upper, bit_and_mask)
