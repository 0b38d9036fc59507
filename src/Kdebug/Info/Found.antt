-- ===== src/Kdebug/Info/Found.antt =====
-- What `debuginfo_eip` reports of an address in a well-formed table.
use mathlib.Core.Path.{subst}
use jos.Base.{
  ℕ, zero, suc, sym, inl, Bool-cases, ℕ_discrete, ◌+◌, ◌-◌, ◌<◌, ◌≤◌, ◌≡◌, ◌≢◌, refl, true, false,
  not, ◌||◌, inr, some, ◌==◌, ltb, leb, arith,
}
use jos.Types.{sub32, u32_mod}
use jos.Memlayout.{ulim}
use jos.Memory.{Mem}
use jos.Kdebug.{Region, Stab, has_type, n_psym, n_fun, n_sline, n_so}
use jos.Kdebug.Info.{
  Table, Eipdebuginfo, found, initial, string_at, walk_back, count_args, fn_narg, fill_function,
  fill_line, in_function, after_function, after_file, debuginfo_eip,
}
use jos.Kdebug.Info.Name.{Readable, fill_namelen-IsReadable, fill_function-IsReadable}
use jos.Kdebug.Info.Entry.{IsEntry, search-IsEntry, IsFile, walk_back-IsFile}

-- Where `addr` lies: in the file whose entries are `[f, fend)`, in the function whose entries are
-- `[g, gend)`, and in the line of entry `l`.
pub record Located (t : Table) (addr f fend g gend l lend : ℕ) : Type 0 where
  pub file : IsEntry (t.stabs) n_so 0 (t.count) addr f fend
  pub not_first : 0 < f
  pub file_address : (t.stabs f).n_value ≢ 0
  pub function : IsEntry (t.stabs) n_fun f fend addr g gend
  pub line : IsEntry (t.stabs) n_sline g gend (addr - (t.stabs g).n_value) l lend
  pub kernel : ulim ≤ addr
  pub small : addr + 1 < u32_mod

-- The `n` entries from `first` on are arguments, and the one behind them, if it is in front of `last`,
-- is none.
pub record AreArguments (stabs : ℕ → Stab) (first last n : ℕ) : Type 0 where
  pub before : n ≢ 0 → first + n ≤ last
  pub arguments : (i : ℕ) → i < n → (stabs (first + i)).n_type ≡ n_psym
  pub stops : first + n < last → (stabs (first + n)).n_type ≢ n_psym

count_args-AreArguments :
    (left : ℕ) (stabs : ℕ → Stab) (first : ℕ)
    → AreArguments stabs first (first + left) (count_args left stabs first)
unfolding count_args
count_args-AreArguments zero stabs first = record {
  before = λ h. absurd (omega arith);
  arguments = λ i h. absurd (omega arith);
  stops = λ h. absurd (omega arith);
}
count_args-AreArguments (suc left) stabs first =
    let rest = count_args-AreArguments left stabs (first + 1) in
    let here : first + 0 ≡ first = omega arith in
    let step : (k : ℕ) → first + suc k ≡ first + 1 + k = λ k. omega arith in
    elim (ℕ_discrete (stabs first).n_type n_psym) [
      | yes arg ↦
          let t : has_type stabs n_psym first ≡ true = ground arith in
          let k = count_args left stabs (first + 1) in
          let size : k + 1 ≡ suc k = omega arith in
          rw (t, size)
            record {
              before = λ h. elim (ℕ_discrete k 0) [
                | yes none_left ↦ omega arith
                | no some_left ↦ omega (arith, rest.before some_left)
              ];
              arguments = λ i h. elim (ℕ_discrete i 0) [
                | yes first_one ↦ rw (first_one, here) arg
                | no later ↦
                    let e : first + i ≡ first + 1 + (i - 1) = omega arith in
                    rw e (rest.arguments (i - 1) (omega arith))
              ];
              stops = λ h. rw (step k) (rest.stops (omega arith));
            }
      | no other ↦
          let t : has_type stabs n_psym first ≡ false = ground arith in
          rw t record {
            before = λ h. absurd (omega arith);
            arguments = λ i h. absurd (omega arith);
            stops = λ h. rw here other;
          }
    ]

-- What is reported of it: the name and the address of the function's entry, the value of the line's
-- entry, the name of the last entry up to there that names a file, and the number of arguments behind
-- the function's entry, of which the last entry `gend - 1` is not looked at.
pub record LocatedInfo (t : Table) (unknown f fend g gend l : ℕ) (info : Eipdebuginfo)
    : Type 0 where
  pub fn_addr : info.eip_fn_addr ≡ (t.stabs g).n_value
  pub fn_name : info.eip_fn_name ≡ string_at t unknown (t.stabs g).n_strx
  pub line_value : info.eip_line ≡ (t.stabs l).n_value
  pub k : ℕ
  pub file_entry : IsFile (t.stabs) f l k
  pub file_name : info.eip_file ≡ string_at t unknown (t.stabs k).n_strx
  pub narg : AreArguments (t.stabs) (g + 1) (gend - 1) info.eip_fn_narg

fn_narg-AreArguments :
    (g gend : ℕ) (stabs : ℕ → Stab)
    → AreArguments stabs
        (g + 1)
        (gend - 1)
        (fn_narg stabs (record { left_succ = suc g; right_succ = gend }))
fn_narg-AreArguments g gend stabs =
    let first : g + 1 ≡ suc g = omega arith in
    elim (Bool-cases (ltb (suc g) gend)) [
      | inl some_entries ↦
          let end : gend - 1 ≡ suc g + (gend - 1 - suc g) = ground arith in
          rw (some_entries, first)
            (subst
              (λ (last : ℕ).
                AreArguments stabs (suc g) last (count_args (gend - 1 - suc g) stabs (suc g)))
              (sym end) (count_args-AreArguments (gend - 1 - suc g) stabs (suc g)))
      | inr none_left ↦ rw none_left record {
        before = λ h. absurd (omega arith);
        arguments = λ i h. absurd (omega arith);
        stops = λ h. absurd (ground arith);
      }
    ]

module _ (t : Table) (fuel : ℕ) (m : Mem) (unknown addr f fend g gend l lend : ℕ)
    (readable : Readable t fuel m unknown) (some_strings : t.stabstr < t.stabstr_end)
    (last : m (t.stabstr_end - 1) ≡ 0) (located : Located t addr f fend g gend l lend) where
  funs : Region
  funs = record { left_succ = suc g; right_succ = gend }

  fill_line-Located :
      (info : Eipdebuginfo)
      → info.eip_fn_addr ≡ (t.stabs g).n_value
      → info.eip_fn_name ≡ string_at t unknown (t.stabs g).n_strx
      → info.eip_file ≡ unknown
      → (k : ℕ) → walk_back (t.stabs) f (suc l) ≡ suc k
      → IsFile (t.stabs) f l k
      → (result : Eipdebuginfo) × (fill_line t info f funs
            (suc l)
            (record { left_succ = suc l; right_succ = lend })
          ≡ found result)
        × LocatedInfo t unknown f fend g gend l result
  unfolding fill_line funs
  fill_line-Located info at named file k walked is_file =
      let in_line : ltb l lend ≡ true = ground (arith, located.line.next_gt) in
      let in_file : ltb f (suc k) ≡ true = ground (arith, is_file.ge_lfile) in
      let back : suc k - 1 ≡ k = omega arith in
      (
        _,
        refl,
        record {
          fn_addr = at;
          fn_name = named;
          line_value = rw in_line refl;
          k = k;
          file_entry = is_file;
          file_name = rw (walked, in_file, file, back) refl;
          narg = fn_narg-AreArguments g gend (t.stabs);
        },
      )

  IsFile-of_line : (k : ℕ) × (walk_back (t.stabs) f (suc l) ≡ suc k) × IsFile (t.stabs) f l k
  IsFile-of_line =
      let typed = located.file.contains.typed in
      walk_back-IsFile (t.stabs) f l
        (omega (arith, located.line.contains.ge_left, located.function.contains.ge_left))
        (ground (arith, located.file_address))

  in_function-Located :
      (result : Eipdebuginfo) × (in_function t fuel m
          (fill_function t (initial unknown addr) g)
          f
          funs
          g
          gend
          (sub32 addr (t.stabs g).n_value)
        ≡ some (found result))
      × LocatedInfo t unknown f fend g gend l result
  unfolding in_function fill_function
  in_function-Located =
      let info = fill_function t (initial unknown addr) g in
      let start = (t.stabs g).n_value in
      let (n, named, good) =
        fill_namelen-IsReadable t fuel m unknown readable some_strings last info (
          fill_function-IsReadable t fuel m unknown readable some_strings last
            (initial unknown addr) g (inr (refl, omega arith))) in
      let offset : sub32 addr start ≡ addr - start =
        omega (arith, located.small, located.function.contains.le_addr) in
      let searched =
        search-IsEntry (t.stabs) n_sline (located.line) (omega (arith, located.small)) in
      let (result, filled, reports) =
        fill_line-Located (record info { eip_fn_namelen = n }) refl refl refl (IsFile-of_line.0)
          (IsFile-of_line.1) (IsFile-of_line.2) in
      (result, rw (offset, named, searched, filled) refl, reports)

  -- For an address in the kernel that the table locates in a file, in a function of that file and in
  -- a line of that function, where the entries of each kind are in order in their range and none lies
  -- one byte above the address, `debuginfo_eip` returns 0 and reports the function's name and
  -- address, the name of the last entry up to the line's that names a file, and as the number of
  -- arguments that of the entries for arguments that follow the function's without a break, in front
  -- of the function's last entry. In `eip_line` it reports the `n_value` of the line's entry.
  pub debuginfo_eip-Located :
      (result : Eipdebuginfo) × (debuginfo_eip t fuel m unknown addr ≡ some (found result))
      × LocatedInfo t unknown f fend g gend l result
  unfolding debuginfo_eip after_file after_function funs fill_function
  debuginfo_eip-Located =
      let kernel : ltb addr ulim ≡ false = ground (arith, located.kernel) in
      let strings : (leb (t.stabstr_end) (t.stabstr) || not (m (t.stabstr_end - 1) == 0)) ≡ false =
        ground arith in
      let files = search-IsEntry (t.stabs) n_so (located.file) (located.small) in
      let functions = search-IsEntry (t.stabs) n_fun (located.function) (located.small) in
      let not_first : (f == 0) ≡ false = ground (arith, located.not_first) in
      let in_file : ltb g gend ≡ true = ground (arith, located.function.next_gt) in
      let (result, run, reports) = in_function-Located in
      (result, rw (kernel, strings, files, not_first, functions, in_file) run, reports)
