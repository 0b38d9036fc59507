-- ===== src/Kdebug/Search/View.antt =====
-- One round of the search, as a view: what the branch that it takes knows.
use jos.Base.{
  ℕ, suc, ◌+◌, ◌-◌, ◌/◌, ◌<◌, ◌≤◌, ◌≡◌, true, false, ltb, leb, arith, Bool-cases, inl, inr, ltb→lt,
}
use jos.Types.{add32}
use jos.Kdebug.{Stab, Vars, has_type, scan, compare_at, round}
use jos.Kdebug.Scan.{scan-le, scan-has_type, scan_misses}

-- The `true_m` of the round that starts in `v`.
abbrev pub middle : Vars → ℕ
middle v = (v.l + (v.r_succ - 1)) / 2

module _ (stabs : ℕ → Stab) (type : ℕ) where
  -- The successor of the entry that the round looks at.
  abbrev pub match_succ : Vars → ℕ
  match_succ v = scan stabs type v.l (middle v + 1)

  abbrev pub value : ℕ → ℕ
  value i = (stabs i).n_value

  -- `m` is the last entry of the type in `[l, true_m]`.
  pub record IsMatch (v : Vars) (m : ℕ) : Type 0 where
    pub is_match_succ : match_succ v ≡ suc m
    pub ge_l : v.l ≤ m
    pub le_middle : m ≤ middle v
    pub typed : has_type stabs type m ≡ true
    pub last : (i : ℕ) → m < i → i ≤ middle v → has_type stabs type i ≡ false

  pub data Round (v : Vars) : Vars → Type 0 where
    skip :
        ((i : ℕ) → v.l ≤ i → i ≤ middle v → has_type stabs type i ≡ false)
        → Round v (record v { l = middle v + 1 })
    lower :
        (m : ℕ)
        → IsMatch v m
        → value m < v.addr
        → Round v (record v { any_matches = true; left = m; l = middle v + 1 })
    higher :
        (m : ℕ)
        → IsMatch v m
        → v.addr < value m
        → Round v (record v { any_matches = true; right_succ = m; r_succ = m })
    exact :
        (m : ℕ)
        → IsMatch v m
        → value m ≡ v.addr
        → Round v (record v { any_matches = true; left = m; l = m; addr = add32 v.addr 1 })

  compare_at-Round :
      (v : Vars) (m : ℕ) → IsMatch v m → Round v (compare_at stabs type (middle v) m v)
  unfolding compare_at
  compare_at-Round v m hit = elim (Bool-cases (ltb (value m) v.addr)) [
    | inl lt ↦ rw lt (lower m hit (ltb→lt _ _ lt))
    | inr ge ↦ rw ge (elim (Bool-cases (ltb v.addr (value m))) [
      | inl gt ↦ rw gt (higher m hit (ltb→lt _ _ gt))
      | inr le ↦ rw le (exact m hit (ground arith))
    ])
  ]

  pub round-Round : (v : Vars) → Round v (round stabs type v)
  unfolding round
  round-Round v = elim (Bool-cases (leb (match_succ v) v.l)) [
    | inl none ↦
        rw none (
          skip
            (λ i p q. scan_misses stabs type v.l (middle v + 1) i p (ground arith) (omega arith)))
    | inr some ↦ rw some (
        compare_at-Round v (match_succ v - 1) (record {
          is_match_succ = ground arith;
          ge_l = ground arith;
          le_middle = omega (arith, scan-le stabs type v.l (middle v + 1));
          typed = scan-has_type stabs type v.l (middle v + 1) (ground arith);
          last = λ i p q.
              scan_misses stabs type v.l (middle v + 1) i (ground arith) (omega arith)
                (omega arith);
        }))
  ]
