-- ===== src/Kdebug/Scan.antt =====
-- The walk down to an entry of the wanted type.
use jos.Base.{
  ℕ, zero, suc, ◌-◌, ◌≤◌, ◌<◌, ◌≡◌, true, false, arith, leb, not, ◌&&◌, Bool-cases, inl, inr,
  ℕ_discrete,
}
use jos.Kdebug.{Stab, has_type, scan}

module _ (stabs : ℕ → Stab) (type : ℕ) (l : ℕ) where
  pub scan-le : (n : ℕ) → scan stabs type l n ≤ n
  unfolding scan
  scan-le zero = omega arith
  scan-le (suc m) = ground (arith, scan-le m)

  -- It stops at an entry of the type, or below `l`.
  pub scan-has_type :
      (n : ℕ) → l < scan stabs type l n → has_type stabs type (scan stabs type l n - 1) ≡ true
  unfolding scan
  scan-has_type zero = λ h. absurd (omega arith)
  scan-has_type (suc m) = elim (Bool-cases (leb l m && not (has_type stabs type m))) [
    | inl on ↦ rw on (scan-has_type m)
    | inr off ↦ rw off (λ h. let e : suc m - 1 ≡ m = omega arith in rw e (ground arith))
  ]

  -- It passes no entry of the type.
  pub scan_misses :
      (n i : ℕ) → l ≤ i → scan stabs type l n ≤ i → i < n → has_type stabs type i ≡ false
  unfolding scan
  scan_misses zero i h = λ p q. absurd (omega arith)
  scan_misses (suc m) i h = elim (Bool-cases (leb l m && not (has_type stabs type m))) [
    | inl on ↦ rw on (λ p q. elim (ℕ_discrete i m) [
      | yes e ↦ rw e (ground arith)
      | no ne ↦ scan_misses m i h p (omega arith)
    ])
    | inr off ↦ rw off (λ p q. absurd (omega arith))
  ]

  -- From above `l` it does not go below it.
  pub le-scan : (n : ℕ) → l ≤ n → l ≤ scan stabs type l n
  unfolding scan
  le-scan zero h = h
  le-scan (suc m) h = ground (arith, le-scan m)
