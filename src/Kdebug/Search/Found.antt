-- ===== src/Kdebug/Search/Found.antt =====
-- On a sorted table the search brackets the address.
use jos.Base.{ℕ, suc, ◌+◌, ◌-◌, ◌<◌, ◌≤◌, ◌≡◌, ◌⊎◌, true, some, arith, inl, inr, dec_lt}
use jos.Types.{u32_mod}
use jos.Kdebug.{Stab, Vars, Region, has_type, scan, finish, stab_binsearch}
use jos.Kdebug.Scan.{scan-le, scan-has_type, scan_misses, le-scan}
use jos.Kdebug.Search.View.{value}
use jos.Kdebug.Search.Invariant.{IsSorted, Lacks, Untyped, Contains, Inv, loop-Inv}

module _ (stabs : ℕ → Stab) (type : ℕ) where
  -- `region` is the entry that contains `addr` and the range up to just before the next one.
  pub record Brackets (first end addr : ℕ) (region : Region) : Type 0 where
    pub m : ℕ
    pub is_left : region.left_succ ≡ suc m
    pub contains : Contains stabs type first end addr m
    pub right_gt : m < region.right_succ
    pub right_le : region.right_succ ≤ end
    pub gap : Untyped stabs type (m + 1) region.right_succ
    pub edge : (region.right_succ ≡ end) ⊎ (has_type stabs type region.right_succ ≡ true)

  finish-scan :
      (v : Vars)
      → v.any_matches ≡ true
      → v.r_succ ≡ v.right_succ
      → finish stabs type v
        ≡ record { left_succ = scan stabs type (v.left + 1) v.r_succ; right_succ = v.r_succ }
  unfolding finish
  finish-scan v any same = ground arith

  module _ (first end key : ℕ) (sorted : IsSorted stabs type first end)
      (apart : Lacks stabs type first end (key + 1)) (small : key + 1 < u32_mod) where
    -- What the walk down after the loop finds, from an entry `v.left` of the type.
    module _ (v : Vars) (inv : Inv stabs type first end key sorted apart small v)
        (stop : v.r_succ ≤ v.l) (ge : first ≤ v.left) (lt : v.left < end)
        (typed : has_type stabs type v.left ≡ true) (le : value stabs type v.left ≤ key) where
      abbrev k : ℕ
      k = scan stabs type (v.left + 1) v.r_succ

      left-lt-right : v.left < v.r_succ
      left-lt-right = ground (arith, inv.above v.left)

      k-gt-left : v.left + 1 ≤ k
      k-gt-left = le-scan stabs type (v.left + 1) v.r_succ (omega (arith, left-lt-right))

      k-le-right : k ≤ v.r_succ
      k-le-right = scan-le stabs type (v.left + 1) v.r_succ

      k-typed : has_type stabs type (k - 1) ≡ true
      k-typed = elim (dec_lt (v.left + 1) k) [
        | yes below ↦ scan-has_type stabs type (v.left + 1) v.r_succ below
        | no here ↦ let e : k - 1 ≡ v.left = omega (arith, k-gt-left) in rw e typed
      ]

      k-Untyped : Untyped stabs type k v.r_succ
      k-Untyped i p q =
          scan_misses stabs type (v.left + 1) v.r_succ i (omega (arith, k-gt-left)) p q

      k-last :
          (j : ℕ) → k - 1 < j → j < end → has_type stabs type j ≡ true → key < value stabs type j
      k-last j p q t = elim (dec_lt j v.r_succ) [
        | yes inside ↦ ground (arith, k-Untyped j (omega arith) inside)
        | no outside ↦ inv.above j (omega arith) q t
      ]

      k-Contains : Contains stabs type first end key (k - 1)
      k-Contains = record {
        ge_left = omega (arith, k-gt-left);
        lt_right = omega (arith, k-gt-left, k-le-right, inv.le_end);
        typed = k-typed;
        le_addr =
            inv.below (k - 1) (omega (arith, k-gt-left)) (omega (arith, k-gt-left, k-le-right))
              k-typed;
        last = k-last;
      }

    finish-Brackets :
        (v : Vars)
        → Inv stabs type first end key sorted apart small v
        → v.r_succ ≤ v.l
        → (i : ℕ) → first ≤ i
        → i < end
        → has_type stabs type i ≡ true
        → value stabs type i ≤ key
        → Brackets first end key (finish stabs type v)
    unfolding finish
    finish-Brackets v inv stop i p q t le = elim inv.left [
      | inl (any, ge, lt, typed, le') ↦ rw (finish-scan v any inv.same) (record {
        m = k v inv stop ge lt typed le' - 1;
        is_left = omega (arith, k-gt-left v inv stop ge lt typed le');
        contains = k-Contains v inv stop ge lt typed le';
        right_gt =
            omega
              (arith, k-gt-left v inv stop ge lt typed le', k-le-right v inv stop ge lt typed le');
        right_le = inv.le_end;
        gap = λ j p q.
            k-Untyped v inv stop ge lt typed le' j
              (omega (arith, k-gt-left v inv stop ge lt typed le')) q;
        edge = inv.edge;
      })
      | inr none ↦ ground (arith, none.1 i, inv.above i)
    ]

    -- On a table whose entries of the type are in order, of which one has an address up to `key` and
    -- none has the address `key + 1`, `stab_binsearch` returns the entry that contains `key`: the
    -- last one with an address up to it, and the range from there to just before the next entry.
    pub stab_binsearch-Brackets :
        (i : ℕ)
        → first ≤ i
        → i < end
        → has_type stabs type i ≡ true
        → value stabs type i ≤ key
        → (r : Region) × (stab_binsearch stabs type first end key ≡ some r)
          × Brackets first end key r
    unfolding stab_binsearch
    stab_binsearch-Brackets i p q t le =
        let (v, e, inv, stop) =
          loop-Inv stabs type first end key sorted apart small (omega arith) in
        (finish stabs type v, rw e, finish-Brackets v inv stop i p q t le)
