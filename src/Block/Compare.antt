-- ===== src/Block/Compare.antt =====
-- `memcmp` and `memfind` against what they are for.
use jos.Base.{
  ℕ, zero, suc, ◌+◌, ◌-◌, ◌%◌, ◌^◌, ◌≤◌, ◌<◌, ◌≡◌, ◌≢◌, ◌⊎◌, inl, inr, refl, arith, ◌==◌, ==_iff,
  ℕ_discrete, Bool-cases,
}
use jos.Base.Int.{pos, sub_ℕ}
use jos.Memory.{Mem}
use jos.Block.{memcmp, memfind}

-- The first place where two blocks differ decides.
record FirstDiffers (m : Mem) (s1 s2 n i : ℕ) : Type 0 where
  in_range : i < n
  differs : m (s1 + i) ≢ m (s2 + i)
  before : (j : ℕ) → j < i → m (s1 + j) ≡ m (s2 + j)

shift_index : (p i : ℕ) → p + suc i ≡ p + 1 + i
shift_index p i = omega arith

-- `memcmp` returns 0 where the blocks are equal, and otherwise the difference of the first bytes in
-- which they differ.
memcmp_lem :
    (m : Mem) (s1 s2 n : ℕ)
    → ((memcmp m s1 s2 n ≡ pos 0) × ((j : ℕ) → j < n → m (s1 + j) ≡ m (s2 + j)))
      ⊎ ((i : ℕ) × FirstDiffers m s1 s2 n i × (memcmp m s1 s2 n ≡ sub_ℕ (m (s1 + i)) (m (s2 + i))))
unfolding memcmp
memcmp_lem m s1 s2 zero = inl (refl, λ j h. absurd (omega arith))
memcmp_lem m s1 s2 (suc n) = elim (Bool-cases (m s1 == m s2)) [
  | inr differ ↦ rw differ (
      inr (
        0,
        record {
          in_range = omega arith;
          differs = ground arith;
          before = λ j h. absurd (omega arith);
        },
        ground arith,
      ))
  | inl same ↦ rw same (elim (memcmp_lem m (s1 + 1) (s2 + 1) n) [
    | inl (e, all) ↦ inl (e, λ j h. ground (arith, all (j - 1)))
    | inr (i, first, e) ↦ inr (
      suc i,
      record {
        in_range = omega (arith, first.in_range);
        differs = rw (shift_index s1 i, shift_index s2 i) first.differs;
        before = λ j h. ground (arith, first.before (j - 1));
      },
      rw (shift_index s1 i, shift_index s2 i) e,
    )
  ])
]

-- `memfind` returns the first of the `n` addresses from `s` on that holds the byte `c`, and the end
-- of the block where none does.
pub memfind_lem :
    (m : Mem) (s c n : ℕ)
    → let p = memfind m s c n in
      (s ≤ p)
      × (p ≤ s + n)
      × ((p < s + n) → m p ≡ c % 2 ^ 8)
      × ((q : ℕ) → s ≤ q → q < p → m q ≢ c % 2 ^ 8)
unfolding memfind
memfind_lem m s c zero =
    (omega arith, omega arith, λ h. absurd (omega arith), λ q h k. absurd (omega arith))
memfind_lem m s c (suc n) = elim (Bool-cases (m s == c % 2 ^ 8)) [
  | inl hit ↦
      rw hit (omega arith, omega arith, λ h. (==_iff _ _).0 hit, λ q h k. absurd (omega arith))
  | inr miss ↦ rw miss (
      let (ge, le, found, none) = memfind_lem m (s + 1) c n in
      (
        omega arith,
        omega arith,
        λ h. found (omega arith),
        λ q h k. elim (ℕ_discrete q s) [
          | yes here ↦ rw here (ground arith)
          | no later ↦ none q (omega arith) (omega arith)
        ],
      ))
]
