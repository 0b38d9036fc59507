-- ===== src/Kdebug/Info/Name.antt =====
-- `debuginfo_eip` returns, and the function's name that it reports is a string that it may read.
use jos.Base.{
  ℕ, zero, suc, ◌+◌, ◌-◌, ◌<◌, ◌≤◌, ◌^◌, ◌≡◌, ◌≢◌, ◌⊎◌, refl, not, ◌||◌, inl, inr, Option, some,
  ◌==◌, ltb, leb, arith, Bool-cases,
}
use jos.Types.{sub32}
use jos.Memlayout.{ulim}
use jos.Memory.{Mem}
use jos.Str.{strfind}
use jos.Kdebug.{Region, n_fun, n_sline, n_so}
use jos.Kdebug.Search.Total.{stab_binsearch_total}
use jos.Kdebug.Info.{
  Table, Eipdebuginfo, Outcome, user_address, not_found, found, out_of_table, initial, string_at,
  fill_function, fill_line, fill_namelen, in_function, after_function, after_file, debuginfo_eip,
}

-- `strfind` stops at a 0 that is not too far on.
strfind_stops :
    (fuel : ℕ) (m : Mem) (s c z : ℕ)
    → m z ≡ 0
    → s ≤ z
    → z < s + fuel
    → (e : ℕ) × (strfind fuel m s c ≡ some e) × (s ≤ e) × (e ≤ z)
unfolding strfind
strfind_stops zero m s c z at_z le lt = absurd (omega arith)
strfind_stops (suc fuel) m s c z at_z le lt = elim (Bool-cases (m s == 0)) [
  | inl end ↦ rw end (s, refl, omega arith, omega arith)
  | inr char ↦ elim (Bool-cases (m s == c)) [
    | inl hit ↦ rw (char, hit) (s, refl, omega arith, omega arith)
    | inr miss ↦
        let before : s ≢ z = ground arith in
        let (e, run, ge, le') = strfind_stops fuel m (s + 1) c z at_z (omega arith) (omega arith) in
        rw (char, miss, run) (e, refl, omega arith, le')
  ]
]

module _ (t : Table) (fuel : ℕ) (m : Mem) (unknown : ℕ) where
  -- The strings that the code relies on: "<unknown>" and the table, which ends in memory.
  pub record Readable : Type 0 where
    pub end_small : t.stabstr_end < 2 ^ 32
    pub unknown_small : unknown + 9 < 2 ^ 32
    pub unknown_end : m (unknown + 9) ≡ 0
    pub unknown_fuel : 9 < fuel
    pub table_fuel : t.stabstr_end - t.stabstr < fuel

  -- The `n` characters from `p` on lie in the string table, in front of its final 0, or in "<unknown>".
  abbrev pub IsReadable : ℕ → ℕ → Type 0
  IsReadable p n = ((t.stabstr ≤ p) × (p + n < t.stabstr_end)) ⊎ ((p ≡ unknown) × (n ≤ 9))

  -- What is said of an outcome: only a result of 0 has a name.
  pub data Reported : Outcome → Type 0 where
    no_user : Reported user_address
    no_result : {info : Eipdebuginfo} → Reported (not_found info)
    no_entry : Reported out_of_table
    reported :
        {info : Eipdebuginfo}
        → IsReadable (info.eip_fn_name) (info.eip_fn_namelen)
        → Reported (found info)

  module _ (readable : Readable) (some_strings : t.stabstr < t.stabstr_end)
      (last : m (t.stabstr_end - 1) ≡ 0) where
    pub fill_namelen-IsReadable :
        (info : Eipdebuginfo)
        → IsReadable (info.eip_fn_name) 0
        → (n : ℕ) × (fill_namelen t fuel m info ≡ some (record info { eip_fn_namelen = n }))
          × IsReadable (info.eip_fn_name) n
    unfolding fill_namelen
    fill_namelen-IsReadable info (inl (ge, lt)) =
        let (e, run, from, to) =
          strfind_stops fuel m (info.eip_fn_name) b':' (t.stabstr_end - 1) last (omega arith)
            (omega (arith, readable.table_fuel)) in
        let len : sub32 e (info.eip_fn_name) ≡ e - info.eip_fn_name =
          omega (arith, readable.end_small) in
        (e - info.eip_fn_name, rw (run, len) refl, inl (ge, omega arith))
    fill_namelen-IsReadable info (inr (same, le)) =
        let at_end : m (info.eip_fn_name + 9) ≡ 0 = rw same (readable.unknown_end) in
        let (e, run, from, to) =
          strfind_stops fuel m (info.eip_fn_name) b':' (info.eip_fn_name + 9) at_end (omega arith)
            (omega (arith, readable.unknown_fuel)) in
        let len : sub32 e (info.eip_fn_name) ≡ e - info.eip_fn_name =
          omega (arith, readable.unknown_small) in
        (e - info.eip_fn_name, rw (run, len) refl, inr (same, omega arith))

    fill_line-Reported :
        (info : Eipdebuginfo) (lfile : ℕ) (funs : Region) (left_succ : ℕ) (lines : Region)
        → IsReadable (info.eip_fn_name) (info.eip_fn_namelen)
        → Reported (fill_line t info lfile funs left_succ lines)
    unfolding fill_line
    fill_line-Reported info lfile funs zero lines ok = no_entry
    fill_line-Reported info lfile funs (suc lline) lines ok = reported ok

    abbrev Ends : Option Outcome → Type 0
    Ends result = (outcome : Outcome) × (result ≡ some outcome) × Reported outcome

    in_function-Ends :
        (info : Eipdebuginfo) (lfile : ℕ) (funs : Region) (lline rline_succ addr : ℕ)
        → IsReadable (info.eip_fn_name) 0
        → Ends (in_function t fuel m info lfile funs lline rline_succ addr)
    unfolding in_function
    in_function-Ends info lfile funs lline rline_succ addr ok =
        let (n, named, good) = fill_namelen-IsReadable info ok in
        let (lines, searched) = stab_binsearch_total (t.stabs) n_sline lline rline_succ addr in
        (
          fill_line t (record info { eip_fn_namelen = n }) lfile funs (lines.left_succ) lines,
          rw (named, searched) refl,
          fill_line-Reported (record info { eip_fn_namelen = n }) lfile funs (lines.left_succ) lines
              good,
        )

    pub fill_function-IsReadable :
        (info : Eipdebuginfo) (lfun : ℕ)
        → IsReadable (info.eip_fn_name) 0
        → IsReadable ((fill_function t info lfun).eip_fn_name) 0
    unfolding fill_function string_at
    fill_function-IsReadable info lfun ok =
        elim (Bool-cases (ltb (t.stabs lfun).n_strx (sub32 (t.stabstr_end) (t.stabstr)))) [
          | inl inside ↦
              rw inside
                (inl (ground (arith, readable.end_small), ground (arith, readable.end_small)))
          | inr outside ↦ rw outside ok
        ]

    after_function-Ends :
        (info : Eipdebuginfo) (lfile rfile_succ addr : ℕ) (funs : Region) (left_succ : ℕ)
        → IsReadable (info.eip_fn_name) 0
        → Ends (after_function t fuel m info lfile rfile_succ addr funs left_succ)
    unfolding after_function
    after_function-Ends info lfile rfile_succ addr funs zero ok = (out_of_table, refl, no_entry)
    after_function-Ends info lfile rfile_succ addr funs (suc lfun) ok =
        elim (Bool-cases (ltb lfun (funs.right_succ))) [
          | inl inside ↦ rw inside (
              in_function-Ends (fill_function t info lfun) lfile funs lfun (funs.right_succ) _
                (fill_function-IsReadable info lfun ok))
          | inr outside ↦ rw outside (
              in_function-Ends (record info { eip_fn_addr = addr }) lfile funs lfile rfile_succ addr
                ok)
        ]

    after_file-Ends :
        (addr : ℕ) (files : Region) (left_succ : ℕ)
        → Ends (after_file t fuel m (initial unknown addr) addr files left_succ)
    unfolding after_file
    after_file-Ends addr files zero = (out_of_table, refl, no_entry)
    after_file-Ends addr files (suc lfile) = elim (Bool-cases (lfile == 0)) [
      | inl first ↦ rw first (not_found (initial unknown addr), refl, no_result)
      | inr later ↦
          let (funs, searched) =
            stab_binsearch_total (t.stabs) n_fun lfile (files.right_succ) addr in
          rw (later, searched)
            (after_function-Ends (initial unknown addr) lfile (files.right_succ) addr funs
              (funs.left_succ) (inr (refl, omega arith)))
    ]

  -- Where the string table ends in memory and "<unknown>" is a string, `debuginfo_eip` returns or
  -- panics or reads `stabs[-1]`, for every stabs table and address, within a fuel that exceeds the
  -- size of the string table. Where it returns 0, the characters of the function's name, as many as
  -- `eip_fn_namelen` says, lie in the string table in front of its last byte, or in "<unknown>".
  pub debuginfo_eip-Reported :
      Readable
      → (addr : ℕ)
      → (outcome : Outcome) × (debuginfo_eip t fuel m unknown addr ≡ some outcome)
        × Reported outcome
  unfolding debuginfo_eip
  debuginfo_eip-Reported readable addr = elim (Bool-cases (ltb addr ulim)) [
    | inl user ↦ rw user (user_address, refl, no_user)
    | inr kernel ↦
        elim (Bool-cases (leb (t.stabstr_end) (t.stabstr) || not (m (t.stabstr_end - 1) == 0))) [
          | inl bad ↦ rw (kernel, bad) (not_found (initial unknown addr), refl, no_result)
          | inr good ↦
              let (files, searched) = stab_binsearch_total (t.stabs) n_so 0 (t.count) addr in
              rw (kernel, good, searched)
                (after_file-Ends readable (ground arith) (ground arith) addr files
                  (files.left_succ))
        ]
  ]
