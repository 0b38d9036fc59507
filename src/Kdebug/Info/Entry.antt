-- ===== src/Kdebug/Info/Entry.antt =====
-- The entries of the stabs table that `debuginfo_eip` finds.
use jos.Base.{
  ℕ, zero, suc, ◌+◌, ◌<◌, ◌≤◌, ◌≡◌, ◌≢◌, ◌⊎◌, sym, ◌∙◌, ap, Bool, true, false, not, ◌&&◌, ◌||◌, inl,
  inr, some, ◌==◌, arith, Bool-cases, dec_le,
}
use jos.Types.{u32_mod}
use jos.Kdebug.{Stab, Region, n_so, n_sol, has_type, stab_binsearch}
use jos.Kdebug.Search.Invariant.{IsSorted, Lacks, Untyped, Contains}
use jos.Kdebug.Search.Found.{Brackets, stab_binsearch-Brackets}
use jos.Kdebug.Info.{walk_back}

region_path : {r r' : Region} → r.left_succ ≡ r'.left_succ → r.right_succ ≡ r'.right_succ → r ≡ r'
region_path {r} {r'} left right = λ i. record { left_succ = left i; right_succ = right i }

module _ (stabs : ℕ → Stab) where
  module _ (type : ℕ) where
    -- The entries of the type in `[first, end)` are in order, and of them `m` contains `key`; the next
    -- one, or the end, is at `next`.
    pub record IsEntry (first end key m next : ℕ) : Type 0 where
      pub sorted : IsSorted stabs type first end
      pub apart : Lacks stabs type first end (key + 1)
      pub contains : Contains stabs type first end key m
      pub next_gt : m < next
      pub next_le : next ≤ end
      pub gap : Untyped stabs type (m + 1) next
      pub edge : (next ≡ end) ⊎ (has_type stabs type next ≡ true)

    module _ {first end key m next : ℕ} (entry : IsEntry first end key m next) where
      entry_unique : (k : ℕ) → Contains stabs type first end key k → k ≡ m
      entry_unique k other =
          let typed = entry.contains.typed in
          let typed' = other.typed in
          ground (
            arith,
            other.last m,
            entry.contains.last k,
            entry.contains.lt_right,
            other.lt_right,
            entry.contains.le_addr,
            other.le_addr,
          )

      region_unique :
          (r : Region)
          → Brackets stabs type first end key r
          → r ≡ record { left_succ = suc m; right_succ = next }
      region_unique r hit =
          let same = entry_unique (hit.m) (hit.contains) in
          let left : r.left_succ ≡ suc m = hit.is_left ∙ ap suc same in
          let right : r.right_succ ≡ next = elim hit.edge [
            | inl at_end ↦ elim entry.edge [
              | inl at_end' ↦ omega arith
              | inr typed' ↦ ground (arith, hit.gap next, entry.next_gt, entry.next_le)
            ]
            | inr typed ↦ elim entry.edge [
              | inl at_end' ↦ ground (arith, entry.gap (r.right_succ), hit.right_gt, hit.right_le)
              | inr typed' ↦
                  ground
                    (arith, hit.gap next, entry.gap (r.right_succ), hit.right_gt, entry.next_gt)
            ]
          ] in
          region_path left right

      pub search-IsEntry :
          key + 1 < u32_mod
          → stab_binsearch stabs type first end key
            ≡ some (record { left_succ = suc m; right_succ = next })
      search-IsEntry small =
          let (r, run, hit) =
            stab_binsearch-Brackets stabs type first end key (entry.sorted) (entry.apart) small m
              (entry.contains.ge_left) (entry.contains.lt_right) (entry.contains.typed)
              (entry.contains.le_addr) in
          run ∙ ap some (region_unique r hit)

  -- An entry that names a source file: N_SOL, or N_SO with an address.
  abbrev pub names_file : ℕ → Bool
  names_file i = has_type stabs n_sol i || (has_type stabs n_so i && not ((stabs i).n_value == 0))

  -- `k` is the last such entry in `[lfile, l]`.
  pub record IsFile (lfile l k : ℕ) : Type 0 where
    pub ge_lfile : lfile ≤ k
    pub le_line : k ≤ l
    pub names : names_file k ≡ true
    pub last : (i : ℕ) → k < i → i ≤ l → names_file i ≡ false

  walk_back_here : (lfile l : ℕ) → names_file l ≡ true → walk_back stabs lfile (suc l) ≡ suc l
  unfolding walk_back
  walk_back_here lfile l names = ground arith

  walk_back_on :
      (lfile l : ℕ)
      → lfile ≤ l
      → names_file l ≡ false
      → walk_back stabs lfile (suc l) ≡ walk_back stabs lfile l
  unfolding walk_back
  walk_back_on lfile l le other = ground arith

  IsFile-here : (lfile l : ℕ) → lfile ≤ l → names_file l ≡ true → IsFile lfile l l
  IsFile-here lfile l le here = record {
    ge_lfile = le;
    le_line = omega arith;
    names = here;
    last = λ i p q. absurd (omega arith);
  }

  IsFile-on :
      {lfile l k : ℕ} → names_file (suc l) ≡ false → IsFile lfile l k → IsFile lfile (suc l) k
  IsFile-on {l} other file = record {
    ge_lfile = file.ge_lfile;
    le_line = omega (arith, file.le_line);
    names = file.names;
    last = λ i p q. elim (dec_le i l) [
      | yes inside ↦ file.last i p inside
      | no last ↦ let e : i ≡ suc l = omega arith in rw e other
    ];
  }

  names_differ : (a b : ℕ) → names_file a ≡ true → names_file b ≡ false → a ≢ b
  names_differ a b is_name other e =
      let t : true ≡ false = sym is_name ∙ ap names_file e ∙ other in ground arith

  pub walk_back-IsFile :
      (lfile l : ℕ)
      → lfile ≤ l
      → names_file lfile ≡ true
      → (k : ℕ) × (walk_back stabs lfile (suc l) ≡ suc k) × IsFile lfile l k
  walk_back-IsFile lfile zero le names =
      let e : lfile ≡ 0 = omega arith in
      let here = rw e at names in (0, walk_back_here lfile 0 here, IsFile-here lfile 0 le here)
  walk_back-IsFile lfile (suc l) le names = elim (Bool-cases (names_file (suc l))) [
    | inl here ↦ (suc l, walk_back_here lfile (suc l) here, IsFile-here lfile (suc l) le here)
    | inr other ↦
        let other_entry = names_differ lfile (suc l) names other in
        let (k, run, file) = walk_back-IsFile lfile l (omega arith) names in
        (k, walk_back_on lfile (suc l) le other ∙ run, IsFile-on other file)
  ]
