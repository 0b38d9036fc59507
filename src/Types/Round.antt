-- ===== src/Types/Round.antt =====
-- ROUNDDOWN and ROUNDUP of inc/types.h give the multiples of `n` next to an address.
use jos.Base.{ℕ, ◌+◌, ◌-◌, ◌≤◌, ◌<◌, ◌%◌, ◌≡◌, arith}
use jos.Types.{u32_mod, u32, add32, sub32, round_down, round_up}

-- For a 32-bit `a`, ROUNDDOWN(a, n) is the largest multiple of `n` that is at most `a`.
pub round_down_lem :
    (a n : ℕ)
    → a < u32_mod
    → 0 < n
    → (round_down a n % n ≡ 0) × (round_down a n ≤ a) × (a < round_down a n + n)
unfolding round_down
round_down_lem a n ha hn = (grind arith, grind arith, grind arith)

-- Where `a + n - 1` does not wrap, ROUNDUP(a, n) is the least multiple of `n` that is at least `a`.
pub round_up_lem :
    (a n : ℕ)
    → 0 < n
    → n < u32_mod
    → a + n ≤ u32_mod
    → (round_up a n % n ≡ 0) × (a ≤ round_up a n) × (round_up a n < a + n)
unfolding round_up
round_up_lem a n hn hn' fits =
    let e : sub32 (add32 a (u32 n)) 1 ≡ a + n - 1 = omega arith in
    let f : u32 n ≡ n = omega arith in
    rw (e, f) (omega (arith, round_down_lem (a + n - 1) n (omega arith) hn, multiple))
  where
    multiple : round_down (a + n - 1) n % n ≡ 0
    multiple = (round_down_lem (a + n - 1) n (omega arith) hn).0
