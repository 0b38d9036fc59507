-- ===== src/Base/Bits/Step.antt =====
-- The lowest binary digit of `|` and `&`. The native operations stand for `bitwise`, which walks
-- over the digits of its first number with that number as fuel; more fuel than that is not read,
-- so the fuel can be left out of the equations.
use Prim.Native.Nat.{
  ℕ, zero, suc, ◌+◌, ◌*◌, ◌/◌, ◌%◌, ◌≤◌, min, max, bit_and, bit_or, digits, bitwise,
  bit_and-bitwise, bit_or-bitwise,
}
use mathlib.Core.Path.{◌≡◌, refl, ◌∙◌}
use native.Mathlib.Decide.{ℕ_discrete}
use native.Mathlib.Omega.{arith}

-- One more unit of fuel than the number needs is not read.
digits-spare :
    (rest : ℕ → ℕ) (op : ℕ → ℕ → ℕ) (fuel x y : ℕ)
    → x ≤ fuel
    → digits rest op (suc fuel) x y ≡ digits rest op fuel x y
digits-spare rest op zero zero y enough = refl
digits-spare rest op (suc fuel) zero y enough = refl
digits-spare rest op zero (suc x) y enough = absurd (omega arith)
digits-spare rest op (suc fuel) (suc x) y enough =
    rw (digits-spare rest op fuel (suc x / 2) (y / 2) (omega arith))

digits-settled :
    (rest : ℕ → ℕ) (op : ℕ → ℕ → ℕ) (fuel x y : ℕ)
    → x ≤ fuel
    → digits rest op fuel x y ≡ digits rest op x x y
digits-settled rest op zero x y enough = let none : x ≡ 0 = omega arith in rw none refl
digits-settled rest op (suc fuel) x y enough = elim (ℕ_discrete x (suc fuel)) [
  | yes all ↦ rw all refl
  | no part ↦
      digits-spare rest op fuel x y (omega arith) ∙ digits-settled rest op fuel x y (omega arith)
]

bitwise-digit :
    (rest : ℕ → ℕ) (op : ℕ → ℕ → ℕ) (y x : ℕ)
    → bitwise rest op (suc x) y ≡ op (suc x % 2) (y % 2) + 2 * bitwise rest op (suc x / 2) (y / 2)
bitwise-digit rest op y x =
    omega (arith, digits-settled rest op x (suc x / 2) (y / 2) (omega arith))

pub bit_and_step : (x y : ℕ) → bit_and x y ≡ min (x % 2) (y % 2) + 2 * bit_and (x / 2) (y / 2)
bit_and_step (suc x) y = simp bit_and-bitwise (bitwise-digit (λ y. 0) min y x)
bit_and_step zero y = simp bit_and-bitwise (omega arith)

pub bit_or_step : (x y : ℕ) → bit_or x y ≡ max (x % 2) (y % 2) + 2 * bit_or (x / 2) (y / 2)
bit_or_step (suc x) y = simp bit_or-bitwise (bitwise-digit (λ y. y) max y x)
bit_or_step zero y = simp bit_or-bitwise (omega arith)
