-- ===== src/Memory.antt =====
-- Byte-addressed memory, as the C code sees it. An address is a number, and objects do not wrap
-- round the end of the address space. A byte is a number below 256.
pub mod Text
use jos.Base.{ℕ, ◌+◌, ◌-◌, ◌≤◌, ◌<◌, ◌≡◌, ◌⊎◌, Bool, ◌&&◌, ◌==◌, ltb, leb, if◌then◌else◌}

abbrev pub Mem : Type 0
Mem = ℕ → ℕ

-- `*p = v`
unfoldable pub store : Mem → ℕ → ℕ → Mem
store m p v q = if q == p then v else m q

-- Whether `q` is one of the `n` addresses from `p` on.
abbrev pub within : ℕ → ℕ → ℕ → Bool
within p n q = leb p q && ltb q (p + n)

-- Two blocks of `n` and `k` bytes share no address.
abbrev pub Apart : ℕ → ℕ → ℕ → ℕ → Type 0
Apart p n q k = (p + n ≤ q) ⊎ (q + k ≤ p)

-- `m'` differs from `m` at most in the `n` bytes from `p` on.
abbrev pub SameOutside : Mem → Mem → ℕ → ℕ → Type 0
SameOutside m m' p n = (q : ℕ) → (q < p) ⊎ (p + n ≤ q) → m' q ≡ m q
