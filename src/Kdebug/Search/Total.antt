-- ===== src/Kdebug/Search/Total.antt =====
-- The search ends, whatever the table holds.
use jos.Base.{
  ℕ, zero, suc, ◌+◌, ◌-◌, ◌*◌, ◌<◌, ◌≤◌, ◌≡◌, refl, true, some, ◌==◌, ltb, arith, if◌then◌else◌,
  Bool-cases, inl, inr, ltb→lt, ℕ_discrete,
}
use jos.Types.{add32}
use jos.Kdebug.{Stab, Vars, Region, round, loop, finish, start, stab_binsearch}
use jos.Kdebug.Search.View.{
  match_succ, value, IsMatch, Round, skip, lower, higher, exact, round-Round,
}

module _ (stabs : ℕ → Stab) (type : ℕ) where
  -- 1 if the next round is an exact match, which may leave `l` and `r` as they are.
  pending : Vars → ℕ
  pending v = if value stabs type (match_succ stabs type v - 1) == v.addr then 1 else 0

  pub measure : Vars → ℕ
  unfolding pending
  measure v = 2 * (v.r_succ - v.l) + pending v

  pending-le : (v : Vars) → pending v ≤ 1
  unfolding pending
  pending-le v = ground arith

  pub measure-le : (v : Vars) → measure v ≤ 2 * (v.r_succ - v.l) + 1
  unfolding measure
  measure-le v = omega (arith, pending-le v)

  -- After an exact match at `l` itself the next round looks at the same entry, and moves on.
  pending_after :
      (v : Vars) (m : ℕ)
      → IsMatch stabs type v m
      → value stabs type m ≡ v.addr
      → m ≡ v.l
      → pending (record v { any_matches = true; left = m; l = m; addr = add32 v.addr 1 }) ≡ 0
  unfolding pending
  pending_after v m hit e same = rw same (rw (hit.is_match_succ) (ground arith))

  pending_exact :
      (v : Vars) (m : ℕ) → IsMatch stabs type v m → value stabs type m ≡ v.addr → pending v ≡ 1
  unfolding pending
  pending_exact v m hit e = rw (hit.is_match_succ) (ground arith)

  Round-shrinks : {v v' : Vars} → Round stabs type v v' → v.l < v.r_succ → measure v' < measure v
  unfolding measure
  Round-shrinks {v} (skip no_match) h = omega (arith, pending-le _)
  Round-shrinks {v} (lower m hit lt) h = omega (arith, pending-le _)
  Round-shrinks {v} (higher m hit gt) h = omega (arith, pending-le _, hit.ge_l, hit.le_middle)
  Round-shrinks {v} (exact m hit e) h = elim (ℕ_discrete m v.l) [
    | yes same ↦ omega (arith, pending_exact v m hit e, pending_after v m hit e same)
    | no other ↦ omega (arith, pending-le _, hit.ge_l, hit.le_middle, pending_exact v m hit e)
  ]

  -- The rule for the loop: an invariant, and the end of the loop by its test.
  pub loop_rule :
      (P : Vars → Type 0)
      → ((v : Vars) → P v → v.l < v.r_succ → P (round stabs type v))
      → (fuel : ℕ) (v : Vars) → measure v < fuel
      → P v
      → (v' : Vars) × (loop stabs type fuel v ≡ some v') × P v' × (v'.r_succ ≤ v'.l)
  unfolding loop
  loop_rule P keep zero v m p = absurd (omega arith)
  loop_rule P keep (suc fuel) v m p = elim (Bool-cases (ltb v.l v.r_succ)) [
    | inl on ↦ rw on (
        loop_rule P keep fuel (round stabs type v)
          (omega (arith, Round-shrinks (round-Round stabs type v) (ltb→lt _ _ on)))
          (keep v p (ltb→lt _ _ on)))
    | inr off ↦ rw off (v, refl, p, ground arith)
  ]

  -- `stab_binsearch` returns, for every table, range, type and address.
  pub stab_binsearch_total :
      (left right_succ addr : ℕ)
      → (r : Region) × (stab_binsearch stabs type left right_succ addr ≡ some r)
  unfolding stab_binsearch
  stab_binsearch_total left right_succ addr =
      let (v, e, _, _) =
        loop_rule (λ _. Unit {0}) (λ _ _ _. tt) (2 * right_succ + 2)
          (start stabs type left right_succ addr)
          (omega (arith, measure-le (start stabs type left right_succ addr))) tt in
      (finish stabs type v, rw e)
