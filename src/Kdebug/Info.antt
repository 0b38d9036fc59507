-- ===== src/Kdebug/Info.antt =====
-- `debuginfo_eip` of kern/kdebug.c and `struct Eipdebuginfo` of kern/kdebug.h.
pub mod Name
pub mod Entry
pub mod Found
use jos.Base.{
  ℕ, zero, suc, ◌+◌, ◌-◌, Bool, true, false, not, ◌&&◌, ◌||◌, Option, none, some, ◌==◌, ltb, leb,
  if◌then◌else◌, ◌>>=◌,
}
use jos.Types.{add32, sub32}
use jos.Memlayout.{ulim}
use jos.Memory.{Mem}
use jos.Str.{strfind}
use jos.Kdebug.{Stab, Region, n_fun, n_sline, n_so, n_sol, n_psym, has_type, stab_binsearch}

-- `stabs`, the number of its entries, `stabstr` and `stabstr_end`
pub record Table : Type 0 where
  pub stabs : ℕ → Stab
  pub count : ℕ
  pub stabstr : ℕ
  pub stabstr_end : ℕ

-- `struct Eipdebuginfo`
pub record Eipdebuginfo : Type 0 where
  pub eip_file : ℕ
  pub eip_line : ℕ
  pub eip_fn_name : ℕ
  pub eip_fn_namelen : ℕ
  pub eip_fn_addr : ℕ
  pub eip_fn_narg : ℕ

-- How a call ends: the panic for a user address, -1, 0, or the first access to `stabs[-1]`.
pub data Outcome : Type 0 where
  user_address : Outcome
  not_found : Eipdebuginfo → Outcome
  found : Eipdebuginfo → Outcome
  out_of_table : Outcome

-- `*info` at the start; "<unknown>" stands at `unknown`
abbrev pub initial : ℕ → ℕ → Eipdebuginfo
initial unknown addr = record {
  eip_file = unknown;
  eip_line = 0;
  eip_fn_name = unknown;
  eip_fn_namelen = 9;
  eip_fn_addr = addr;
  eip_fn_narg = 0;
}

-- The walk back from a line entry to the entry of its file, from `lline + 1` to the final `lline + 1`
unfoldable pub walk_back : (ℕ → Stab) → ℕ → ℕ → ℕ
walk_back stabs lfile zero = zero
walk_back stabs lfile (suc lline) =
    let rest = walk_back stabs lfile lline in
    if leb lfile lline
      && (not (has_type stabs n_sol lline)
          && (not (has_type stabs n_so lline) || (stabs lline).n_value == 0))
    then rest
    else suc lline

-- The loop that counts arguments, with as many entries left before `rfun` as the first argument says
unfoldable pub count_args : ℕ → (ℕ → Stab) → ℕ → ℕ
count_args zero stabs lline = 0
count_args (suc left) stabs lline =
    let rest = count_args left stabs (lline + 1) in
    if has_type stabs n_psym lline then rest + 1 else 0

-- `eip_fn_narg`, for the `lfun` and `rfun` of the search for the function
abbrev pub fn_narg : (ℕ → Stab) → Region → ℕ
fn_narg stabs funs =
    if ltb funs.left_succ funs.right_succ
    then count_args (funs.right_succ - 1 - funs.left_succ) stabs funs.left_succ
    else 0

module _ (t : Table) where
  -- `stabstr + n_strx`, where that is in the string table
  unfoldable pub string_at : ℕ → ℕ → ℕ
  string_at otherwise n_strx =
      if ltb n_strx (sub32 (t.stabstr_end) (t.stabstr)) then add32 (t.stabstr) n_strx else otherwise

  -- from the search for the line number on
  unfoldable pub fill_line : Eipdebuginfo → ℕ → Region → ℕ → Region → Outcome
  fill_line info lfile funs zero lines = out_of_table
  fill_line info lfile funs (suc lline) lines =
      let file_succ = walk_back (t.stabs) lfile (suc lline) in
      found (record info {
        eip_line = if ltb lline (lines.right_succ) then (t.stabs lline).n_value else info.eip_line;
        eip_file =
            if ltb lfile file_succ
            then string_at (info.eip_file) (t.stabs (file_succ - 1)).n_strx
            else info.eip_file;
        eip_fn_narg = fn_narg (t.stabs) funs;
      })

  -- the function's name and address, from its entry
  unfoldable pub fill_function : Eipdebuginfo → ℕ → Eipdebuginfo
  fill_function info lfun = record info {
    eip_fn_name = string_at (info.eip_fn_name) (t.stabs lfun).n_strx;
    eip_fn_addr = (t.stabs lfun).n_value;
  }

  module _ (fuel : ℕ) (m : Mem) where
    -- `strfind(info->eip_fn_name, ':') - info->eip_fn_name`
    unfoldable pub fill_namelen : Eipdebuginfo → Option Eipdebuginfo
    fill_namelen info = do
      end ← strfind fuel m (info.eip_fn_name) b':'
      some (record info { eip_fn_namelen = sub32 end (info.eip_fn_name) })

    -- from the length of the name on: the search for the line, in `[lline, rline]`
    unfoldable pub in_function : Eipdebuginfo → ℕ → Region → ℕ → ℕ → ℕ → Option Outcome
    in_function info lfile funs lline rline_succ addr = do
      named ← fill_namelen info
      lines ← stab_binsearch (t.stabs) n_sline lline rline_succ addr
      some (fill_line named lfile funs (lines.left_succ) lines)

    -- what follows the search for the function, with the result's `lfun + 1` once more
    unfoldable pub after_function : Eipdebuginfo → ℕ → ℕ → ℕ → Region → ℕ → Option Outcome
    after_function info lfile rfile_succ addr funs zero = some out_of_table
    after_function info lfile rfile_succ addr funs (suc lfun) =
        let filled = fill_function info lfun in
        if ltb lfun (funs.right_succ)
        then in_function filled lfile funs lfun (funs.right_succ) (sub32 addr (filled.eip_fn_addr))
        else in_function (record info { eip_fn_addr = addr }) lfile funs lfile rfile_succ addr

    -- what follows the search for the file, with its `lfile + 1` once more
    unfoldable pub after_file : Eipdebuginfo → ℕ → Region → ℕ → Option Outcome
    after_file info addr files zero = some out_of_table
    after_file info addr files (suc lfile) = if lfile == 0 then some (not_found info) else do
      funs ← stab_binsearch (t.stabs) n_fun lfile (files.right_succ) addr
      after_function info lfile (files.right_succ) addr funs (funs.left_succ)

    -- `debuginfo_eip(addr, info)`
    unfoldable pub debuginfo_eip : ℕ → ℕ → Option Outcome
    debuginfo_eip unknown addr =
        if ltb addr ulim
        then some user_address
        else if leb (t.stabstr_end) (t.stabstr) || not (m (t.stabstr_end - 1) == 0)
        then some (not_found (initial unknown addr))
        else do
          files ← stab_binsearch (t.stabs) n_so 0 (t.count) addr
          after_file (initial unknown addr) addr files (files.left_succ)
