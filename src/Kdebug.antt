-- ===== src/Kdebug.antt =====
-- kern/kdebug.c and inc/stab.h: looking an instruction address up in the stabs table.
-- An array is a function of the index; `int` variables that can be -1 are kept as their successor,
-- under a name that ends in `_succ`. A table has fewer than 2 ^ 29 entries, since an entry takes 12
-- bytes of a 32-bit address space, so `l + r` cannot overflow an `int`.
pub mod Scan
pub mod Search
pub mod Wrong
pub mod Info
use jos.Base.{
  ℕ, zero, suc, ◌+◌, ◌-◌, ◌/◌, ◌*◌, Bool, true, false, not, ◌&&◌, Option, none, some, ◌==◌, ltb,
  leb, if◌then◌else◌,
}
use jos.Types.{add32}

-- `struct Stab`
pub record Stab : Type 0 where
  pub n_strx : ℕ
  pub n_type : ℕ
  pub n_other : ℕ
  pub n_desc : ℕ
  pub n_value : ℕ

abbrev pub n_fun : ℕ
n_fun = 0x24

abbrev pub n_sline : ℕ
n_sline = 0x44

abbrev pub n_so : ℕ
n_so = 0x64

abbrev pub n_sol : ℕ
n_sol = 0x84

abbrev pub n_psym : ℕ
n_psym = 0xa0

-- The variables of `stab_binsearch`: `*region_left`, `*region_right`, `l`, `r`, `any_matches`, and
-- the parameter `addr`, which the code increments.
pub record Vars : Type 0 where
  pub left : ℕ
  pub right_succ : ℕ
  pub l : ℕ
  pub r_succ : ℕ
  pub any_matches : Bool
  pub addr : ℕ

-- What the caller finds in `*region_left` and `*region_right`.
pub record Region : Type 0 where
  pub left_succ : ℕ
  pub right_succ : ℕ

module _ (stabs : ℕ → Stab) (type : ℕ) where
  abbrev pub has_type : ℕ → Bool
  has_type i = (stabs i).n_type == type

  -- `while (m >= l && stabs[m].n_type != type) m--;`, from `m + 1` to the final `m + 1`
  unfoldable pub scan : ℕ → ℕ → ℕ
  scan l zero = zero
  scan l (suc m) = if leb l m && not (has_type m) then scan l m else suc m

  -- the branches of the search at the matching entry `m`
  unfoldable pub compare_at : ℕ → ℕ → Vars → Vars
  compare_at true_m m v =
      if ltb (stabs m).n_value v.addr
      then record v { any_matches = true; left = m; l = true_m + 1 }
      else if ltb v.addr (stabs m).n_value
      then record v { any_matches = true; right_succ = m; r_succ = m }
      else record v { any_matches = true; left = m; l = m; addr = add32 v.addr 1 }

  -- the body of `while (l <= r)`
  unfoldable pub round : Vars → Vars
  unfolding compare_at
  round v =
      let true_m = (v.l + (v.r_succ - 1)) / 2 in
      let m_succ = scan v.l (true_m + 1) in
      if leb m_succ v.l then record v { l = true_m + 1 } else compare_at true_m (m_succ - 1) v

  -- the loop, on fuel; `none` means that the fuel ran out
  unfoldable pub loop : ℕ → Vars → Option Vars
  loop zero v = none
  loop (suc fuel) v = let rest = loop fuel (round v) in if ltb v.l v.r_succ then rest else some v

  -- what follows the loop; its `for` is the same walk down, to `*region_left`
  unfoldable pub finish : Vars → Region
  finish v =
      if not v.any_matches
      then record { left_succ = v.left + 1; right_succ = v.left }
      else record { left_succ = scan (v.left + 1) v.right_succ; right_succ = v.right_succ }

  abbrev pub start : ℕ → ℕ → ℕ → Vars
  start left right_succ addr = record {
    left = left;
    right_succ = right_succ;
    l = left;
    r_succ = right_succ;
    any_matches = false;
    addr = addr;
  }

  abbrev pub finish? : Option Vars → Option Region
  finish? none = none
  finish? (some v) = some (finish v)

  -- Each round but an exact match shortens the range, and an exact match is followed by one that
  -- does: two rounds an entry are enough.
  unfoldable pub stab_binsearch : ℕ → ℕ → ℕ → Option Region
  unfolding loop
  stab_binsearch left right_succ addr =
      finish? (loop (2 * right_succ + 2) (start left right_succ addr))
