-- ===== src/Types.antt =====
-- inc/types.h: the rounding and order macros, over the 32-bit unsigned values that they convert to.
pub mod Round
use jos.Base.{ℕ, ◌+◌, ◌-◌, ◌%◌, ◌^◌, leb, if◌then◌else◌}

-- The number of values of `uint32_t`, `uintptr_t`, `physaddr_t` and `size_t`.
abbrev pub u32_mod : ℕ
u32_mod = 2 ^ 32

abbrev pub u32 : ℕ → ℕ
u32 n = n % u32_mod

-- `a + b` and `a - b` on `uint32_t`.
abbrev pub add32 : ℕ → ℕ → ℕ
add32 a b = (a + b) % u32_mod

abbrev pub sub32 : ℕ → ℕ → ℕ
sub32 a b = (a + u32_mod - b) % u32_mod

unfoldable pub min_of : ℕ → ℕ → ℕ
min_of a b = if leb a b then a else b

unfoldable pub max_of : ℕ → ℕ → ℕ
max_of a b = if leb b a then a else b

unfoldable pub round_down : ℕ → ℕ → ℕ
round_down a n = u32 a - u32 a % n

unfoldable pub round_up : ℕ → ℕ → ℕ
unfolding round_down
round_up a n = round_down (sub32 (add32 a (u32 n)) 1) (u32 n)
