-- ===== src/Kdebug/Search/Invariant.antt =====
-- The invariant of the search on a sorted table: the entries left of the range have addresses up to
-- the key, those right of it have larger ones.
use jos.Base.{ℕ, ◌+◌, ◌*◌, ◌<◌, ◌≤◌, ◌≡◌, ◌≢◌, ◌⊎◌, refl, true, false, some, arith, inl, inr}
use jos.Types.{u32_mod}
use jos.Kdebug.{Stab, Vars, has_type, loop, start}
use jos.Kdebug.Search.View.{value, IsMatch, Round, skip, lower, higher, exact, round-Round}
use jos.Kdebug.Search.Total.{measure-le, loop_rule}

module _ (stabs : ℕ → Stab) (type : ℕ) where
  -- The entries of the type in `[left, right]` stand in order of their addresses.
  abbrev pub IsSorted : ℕ → ℕ → Type 0
  IsSorted left right_succ =
      (i j : ℕ)
      → left ≤ i
      → i ≤ j
      → j < right_succ
      → has_type stabs type i ≡ true
      → has_type stabs type j ≡ true
      → value stabs type i ≤ value stabs type j

  -- No entry of the type in `[left, right]` has this value.
  abbrev pub Lacks : ℕ → ℕ → ℕ → Type 0
  Lacks left right_succ x =
      (i : ℕ) → left ≤ i → i < right_succ → has_type stabs type i ≡ true → value stabs type i ≢ x

  -- No entry in `[from, to)` is of the type.
  abbrev pub Untyped : ℕ → ℕ → Type 0
  Untyped from to = (i : ℕ) → from ≤ i → i < to → has_type stabs type i ≡ false

  -- `m` is the last entry of the type whose address is at most `addr`.
  pub record Contains (left right_succ addr m : ℕ) : Type 0 where
    pub ge_left : left ≤ m
    pub lt_right : m < right_succ
    pub typed : has_type stabs type m ≡ true
    pub le_addr : value stabs type m ≤ addr
    pub last :
        (j : ℕ) → m < j → j < right_succ → has_type stabs type j ≡ true → addr < value stabs type j

  module _ (first end key : ℕ) (sorted : IsSorted first end) (apart : Lacks first end (key + 1))
      (small : key + 1 < u32_mod) where
    -- What `*region_left` is during the loop.
    abbrev pub LeftSide : Vars → Type 0
    LeftSide v =
        ((v.any_matches ≡ true)
          × (first ≤ v.left)
          × (v.left < end)
          × (has_type stabs type v.left ≡ true)
          × (value stabs type v.left ≤ key))
        ⊎ ((v.left ≡ first) × Untyped first v.l)

    pub record Inv (v : Vars) : Type 0 where
      pub ge_first : first ≤ v.l
      pub same : v.r_succ ≡ v.right_succ
      pub le_end : v.r_succ ≤ end
      pub below :
          (i : ℕ) → first ≤ i → i < v.l → has_type stabs type i ≡ true → value stabs type i ≤ key
      pub above :
          (i : ℕ) → v.r_succ ≤ i → i < end → has_type stabs type i ≡ true → key < value stabs type i
      pub edge : (v.r_succ ≡ end) ⊎ (has_type stabs type v.r_succ ≡ true)
      pub left : LeftSide v
      pub now : (v.addr ≡ key) ⊎ (v.addr ≡ key + 1)

    start-Inv : first ≤ end → Inv (start stabs type first end key)
    start-Inv h = record {
      ge_first = omega arith;
      same = refl;
      le_end = omega arith;
      below = λ i p q. absurd (omega arith);
      above = λ i p q. absurd (omega arith);
      edge = inl refl;
      left = inr (refl, λ i p q. absurd (omega arith));
      now = inl refl;
    }

    -- Where a match lies, and the side of `key` on which its address lies.
    match-lt-end : {v : Vars} {m : ℕ} → Inv v → IsMatch stabs type v m → v.l < v.r_succ → m < end
    match-lt-end inv hit h = omega (arith, inv.le_end, hit.le_middle)

    sorted_at :
        (i j : ℕ)
        → first ≤ i
        → i ≤ j
        → j < end
        → has_type stabs type i ≡ true
        → has_type stabs type j ≡ true
        → value stabs type i ≤ value stabs type j
    sorted_at = sorted

    exact_key :
        {v : Vars} {m : ℕ}
        → Inv v
        → IsMatch stabs type v m
        → v.l < v.r_succ
        → value stabs type m ≡ v.addr
        → v.addr ≡ key
    exact_key {m} inv hit h e = elim inv.now [
      | inl now ↦ now
      | inr next ↦ absurd (
          apart m (omega (arith, inv.ge_first, hit.ge_l)) (match-lt-end inv hit h) hit.typed
            (omega arith))
    ]

    Round-Inv : {v v' : Vars} → Round stabs type v v' → Inv v → v.l < v.r_succ → Inv v'
    Round-Inv {v} (skip no_match) inv h = record {
      ge_first = omega (arith, inv.ge_first);
      same = inv.same;
      le_end = inv.le_end;
      below = λ i p q t. ground (arith, inv.below i, no_match i);
      above = inv.above;
      edge = inv.edge;
      left = elim inv.left [
        | inl found ↦ inl found
        | inr (e, none) ↦ inr (e, λ i p q. ground (arith, none i, no_match i))
      ];
      now = inv.now;
    }
    Round-Inv {v} (lower m hit lt) inv h =
        let in_range = match-lt-end inv hit h in
        record {
          ge_first = omega (arith, inv.ge_first);
          same = inv.same;
          le_end = inv.le_end;
          below = λ i p q t. ground (arith, inv.now, sorted_at i m, hit.typed, hit.last i);
          above = inv.above;
          edge = inv.edge;
          left = inl (
            refl,
            omega (arith, inv.ge_first, hit.ge_l),
            in_range,
            hit.typed,
            omega (arith, inv.now),
          );
          now = inv.now;
        }
    Round-Inv {v} (higher m hit gt) inv h =
        let in_range = match-lt-end inv hit h in
        record {
          ge_first = inv.ge_first;
          same = refl;
          le_end = omega arith;
          below = inv.below;
          above =
              λ i p q t. ground (arith, inv.now, inv.ge_first, hit.ge_l, sorted_at m i, hit.typed);
          edge = inr hit.typed;
          left = elim inv.left [
            | inl found ↦ inl (refl, found.1, found.2, found.3, found.4)
            | inr none ↦ inr none
          ];
          now = inv.now;
        }
    Round-Inv {v} (exact m hit e) inv h =
        let in_range = match-lt-end inv hit h in
        let at_key = exact_key inv hit h e in
        record {
          ge_first = omega (arith, inv.ge_first, hit.ge_l);
          same = inv.same;
          le_end = inv.le_end;
          below = λ i p q t. ground (arith, sorted_at i m, hit.typed);
          above = inv.above;
          edge = inv.edge;
          left =
              inl (refl, omega (arith, inv.ge_first, hit.ge_l), in_range, hit.typed, omega arith);
          now = inr (omega arith);
        }

    -- What the loop leaves behind.
    pub loop-Inv :
        first ≤ end
        → (v : Vars) × (loop stabs type (2 * end + 2) (start stabs type first end key) ≡ some v)
          × Inv v
          × (v.r_succ ≤ v.l)
    loop-Inv h =
        loop_rule stabs type Inv (λ v. Round-Inv (round-Round stabs type v)) (2 * end + 2)
          (start stabs type first end key)
          (omega (arith, measure-le stabs type (start stabs type first end key))) (start-Inv h)
